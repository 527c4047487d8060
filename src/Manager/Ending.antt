-- ===== src/Manager/Ending.antt =====
-- Validate of internal/dependency/manager.go ends: each call of addDependencies installs a package
-- that was missing.
use glasskube.Base.{
  ℕ, zero, suc, ◌≤◌, ◌<◌, String, ◌≡◌, ◌≢◌, refl, Bool, true, false, Option, none, some, List, [],
  ◌∷◌, arith, ok, err, ◌>>=◌, Bool-cases, inl, inr, IsIn, here, there,
}
use glasskube.Semver.{Semver}
use glasskube.Graph.Types.{PackageRef, Graph}
use glasskube.Graph.Lookup.{installed_at}
use glasskube.Graph.Queries.{version, dependencies, max}
use glasskube.Manager.Types.{
  Call, returned, panicked, Stop, out_of_fuel, is_complete, Run, checked, RepoAdapter, Requirement,
}
use glasskube.Manager.Installed.{added}
use glasskube.Manager.Resolve.{
  Resolved, get_versions, add, install, install_max, with_versions, add_dependency, add_each,
  add_dependencies,
}
use glasskube.Manager.Chosen.{max-has, get_versions-has}
use glasskube.Manager.Covered.{dependencies-IsIn}
use glasskube.Manager.Fuel.{
  vertex_of, KeepsInstalled, missing, missing-le, missing-lt, checked-err, added-err, IsClosed,
  IsTame, add_round,
}

module _ {V C : Type 0} (lib : Semver V C) (repo : RepoAdapter) (packages : List PackageRef) where
  -- A run that returns a graph keeps what is installed in `g`, and one that does not has had enough
  -- fuel.
  abbrev pub Ends : Graph V C → Resolved V C → Type 0
  Ends g (ok (h, reqs)) = IsTame lib repo packages h × KeepsInstalled g h
  Ends g (err e) = e ≢ out_of_fuel

  Ends-bind :
      {A : Type 0} (g : Graph V C) (r : Run V C A) (f : A → Resolved V C)
      → ((e : Stop V C) → r ≡ err e → e ≢ out_of_fuel)
      → ((a : A) → r ≡ ok a → Ends g (f a))
      → Ends g (r >>= f)
  Ends-bind g (ok a) f fails each = each a refl
  Ends-bind g (err e) f fails each = fails e refl

  -- After a run from `h`, whose graph is passed on.
  Ends-then :
      (g h : Graph V C) (r : Resolved V C) (f : Graph V C × List Requirement → Resolved V C)
      → KeepsInstalled g h
      → Ends h r
      → ((s : Graph V C) (more : List Requirement)
          → IsTame lib repo packages s
          → KeepsInstalled g s
          → Ends g (f (s, more)))
      → Ends g (r >>= f)
  Ends-then g h (ok (s, more)) f keeps (tame, later) each =
      each s more tame (λ k before. later k (keeps k before))
  Ends-then g h (err e) f keeps ends each = ends

  module _ (originals : (s : String) (v : V) → lib.new_version s ≡ ok v → lib.original v ≢ "")
      (closed : IsClosed repo packages) (depth : ℕ)
      (recurse : Graph V C → PackageRef → Resolved V C)
      (recurse_ends : (g : Graph V C) (p : PackageRef)
        → IsTame lib repo packages g
        → missing g packages < depth
        → Ends g (recurse g p))
      (transitive : Bool) where
    install-Ends :
        (g : Graph V C) (p : PackageRef) (v : V)
        → lib.original v ≢ ""
        → IsTame lib repo packages g
        → IsIn p packages
        → missing g packages ≤ depth
        → installed_at g (vertex_of p) ≡ false
        → Ends g (install lib repo recurse transitive g p v)
    unfolding install
    install-Ends g p v nonempty tame listed few before =
        let reply = repo.get_manifest p.package_name (lib.original v) in
        Ends-bind g (checked reply) _ (λ e fails. checked-err reply fails)
          λ manifest got.
            let added_p = add lib repo g p.name p.namespace manifest (lib.original v) in
            Ends-bind g (added added_p) _ (λ e fails. added-err added_p fails)
              λ h done.
                let (tame_h, keeps, after) =
                  add_round lib repo packages g h p manifest (lib.original v) closed listed nonempty
                    tame got done in
                let fewer = missing-lt g h packages p keeps listed before after in
                Ends-then g h (recurse h p) _ keeps (recurse_ends h p tame_h (omega arith))
                  (λ s more tame_s keeps_s. (tame_s, keeps_s))

    install_max-Ends :
        (g : Graph V C) (p : PackageRef) (chosen : Option V)
        → ((v : V) → chosen ≡ some v → lib.original v ≢ "")
        → IsTame lib repo packages g
        → IsIn p packages
        → missing g packages ≤ depth
        → installed_at g (vertex_of p) ≡ false
        → Ends g (install_max lib repo recurse transitive g p chosen)
    unfolding install_max
    install_max-Ends g p none nonempty tame listed few before = (tame, λ k there_k. there_k)
    install_max-Ends g p (some v) nonempty tame listed few before =
        install-Ends g p v (nonempty v refl) tame listed few before

    with_versions-Ends :
        (g : Graph V C) (p : PackageRef) (call : Call (List V))
        → get_versions lib repo p.package_name ≡ call
        → IsTame lib repo packages g
        → IsIn p packages
        → missing g packages ≤ depth
        → installed_at g (vertex_of p) ≡ false
        → Ends g (with_versions lib repo recurse transitive g p call)
    unfolding with_versions
    with_versions-Ends g p panicked called tame listed few before = λ is_out. cc
    with_versions-Ends g p (returned versions errs) called tame listed few before =
        elim (Bool-cases (is_complete errs)) [
          | inl bad ↦ rw (bad, with_versions) (λ is_out. cc)
          | inr good ↦
              rw (good, with_versions)
                (install_max-Ends g p (max lib g (vertex_of p) versions)
                  (λ v chosen.
                    max-has lib (λ (w : V). lib.original w ≢ "") g (vertex_of p) versions v
                      (λ w m.
                        get_versions-has lib (λ (x : V). lib.original x ≢ "") originals repo
                          p.package_name versions errs w called m)
                      chosen)
                  tame listed few before)
        ]

    add_dependency-Ends :
        (g : Graph V C) (p : PackageRef)
        → IsTame lib repo packages g
        → IsIn p packages
        → missing g packages ≤ depth
        → Ends g (add_dependency lib repo recurse transitive g p)
    unfolding add_dependency version
    add_dependency-Ends g p tame listed few = elim (Bool-cases (installed_at g (vertex_of p))) [
      | inl before ↦ rw (before, add_dependency) (tame, λ k there_k. there_k)
      | inr before ↦
          rw (before, add_dependency)
            (with_versions-Ends g p (get_versions lib repo p.package_name) refl tame listed few
              before)
    ]

    add_each-Ends :
        (deps : List PackageRef) (g : Graph V C)
        → IsTame lib repo packages g
        → ((p : PackageRef) → IsIn p deps → IsIn p packages)
        → missing g packages ≤ depth
        → Ends g (add_each lib repo recurse transitive g deps)
    unfolding add_each
    add_each-Ends [] g tame listed few = (tame, λ k there_k. there_k)
    add_each-Ends (p ∷ deps) g tame listed few =
        Ends-then g g (add_dependency lib repo recurse transitive g p) _ (λ k there_k. there_k)
          (add_dependency-Ends g p tame (listed p (here refl)) few)
          λ h reqs tame_h keeps.
            let fewer = missing-le g h packages keeps in
            Ends-then g h (add_each lib repo recurse transitive h deps) _ keeps
              (add_each-Ends deps h tame_h (λ q m. listed q (there m)) (omega arith))
              λ s more tame_s keeps_s. (tame_s, keeps_s)

  pub Ends-fuel : (g : Graph V C) (r : Resolved V C) → Ends g r → r ≢ err out_of_fuel
  Ends-fuel g (ok (h, reqs)) ends out = cc
  Ends-fuel g (err e) ends out = ends (cc out)

  -- With fuel above the number of the packages that are missing, addDependencies does not run out.
  pub add_dependencies-Ends :
      (originals : (s : String) (v : V) → lib.new_version s ≡ ok v → lib.original v ≢ "")
      (closed : IsClosed repo packages) (fuel : ℕ) (g : Graph V C) (name namespace : String)
      (transitive : Bool)
      → IsTame lib repo packages g
      → missing g packages < fuel
      → Ends g (add_dependencies lib repo fuel g name namespace transitive)
  unfolding add_dependencies
  add_dependencies-Ends originals closed zero g name namespace transitive tame few =
      absurd (omega arith)
  add_dependencies-Ends originals closed (suc fuel) g name namespace transitive tame few =
      add_each-Ends originals closed fuel
        (λ h (dep : PackageRef). add_dependencies lib repo fuel h dep.name dep.namespace true)
        (λ h p tame_h fewer.
          add_dependencies-Ends originals closed fuel h p.name p.namespace true tame_h fewer)
        transitive (dependencies g name namespace) g tame
        (λ p m. dependencies-IsIn packages g name namespace p tame.0 tame.1 m) (omega arith)
