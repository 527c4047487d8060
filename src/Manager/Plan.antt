-- ===== src/Manager/Plan.antt =====
-- What the dependency manager's resolution keeps of the graph.
use glasskube.Base.{
  ℕ, zero, suc, String, ◌≡◌, ◌≢◌, refl, ◌∙◌, Bool, true, false, Option, none, some, List, [], ◌∷◌,
  arith, str_eq, ok, err, ◌>>=◌, is_some, Bool-cases, Option-cases, inl, inr,
}
use glasskube.Semver.{Semver}
use glasskube.Manifest.{PackageManifest}
use glasskube.Graph.Types.{PackageRef, VertexRef, same_ref, same_ref_iff, Graph}
use glasskube.Graph.VertexMap.{vertex_at}
use glasskube.Graph.Queries.{ref_of, version, version_of, dependencies}
use glasskube.Graph.Changes.{Outcome, add_cluster, add_namespaced}
use glasskube.Graph.WellFormed.{IsWellFormed}
use glasskube.Graph.Add.Effect.{IsUntouched}
use glasskube.Graph.Add.Contract.{add-IsWellFormed, add-IsUntouched}
use glasskube.Manager.Types.{
  Call, returned, panicked, is_complete, Run, checked, RepoAdapter, Requirement,
}
use glasskube.Manager.Installed.{added}
use glasskube.Manager.Resolve.{
  Resolved, get_versions, add, install, install_max, with_versions, add_dependency, add_each,
  add_dependencies,
}

module _ {V C : Type 0} where
  abbrev pub IsInstalled : Graph V C → VertexRef → Type 0
  IsInstalled g k = is_some (version_of (vertex_at g k)) ≡ true

  -- `h` is well formed and has the installed namespaced packages of `g` as they were, of those that
  -- are not `except`.
  pub record Grown (g h : Graph V C) : Type 0 where
    pub well_formed : IsWellFormed h
    pub kept : (k : VertexRef) → k.namespace ≢ "" → IsInstalled g k → vertex_at h k ≡ vertex_at g k

  Grown-refl : (g : Graph V C) → IsWellFormed g → Grown g g
  Grown-refl g wf = record { well_formed = wf; kept = λ k namespaced there. refl }

  Grown-trans : (g h s : Graph V C) → Grown g h → Grown h s → Grown g s
  Grown-trans g h s gh hs = record {
    well_formed = hs.well_formed;
    kept = λ k namespaced there.
        let same = gh.kept k namespaced there in hs.kept k namespaced (rw same there) ∙ same;
  }

  pub added-ok : (r : Outcome V C) (h : Graph V C) → added r ≡ ok h → (r.0 ≡ h) × (r.1 ≡ none)
  added-ok (g, none) h e = (cc, refl)
  added-ok (g, some x) h e = cc

  untouched-kept :
      (g h : Graph V C) (k : VertexRef)
      → IsUntouched g h k
      → IsInstalled g k
      → vertex_at h k ≡ vertex_at g k
  untouched-kept g h k (inl same) there = same
  untouched-kept g h k (inr (missing, name, e)) there = absurd (ground (arith, missing, there))

module _ {V C : Type 0} (lib : Semver V C) (repo : RepoAdapter) where
  module _ (g : Graph V C) (name namespace : String) (manifest : PackageManifest) (v : String)
      (wf : IsWellFormed g) where
    pub manager_add-IsWellFormed : IsWellFormed (add lib repo g name namespace manifest v).0
    unfolding add add_cluster add_namespaced
    manager_add-IsWellFormed = elim (Bool-cases (str_eq namespace "")) [
      | inl e ↦ rw e (add-IsWellFormed lib g (ref_of manifest.name "") manifest v _ wf)
      | inr e ↦ rw e (add-IsWellFormed lib g (ref_of name namespace) manifest v _ wf)
    ]

    pub add-kept :
        (k : VertexRef)
        → k.namespace ≢ ""
        → same_ref (ref_of name namespace) k ≡ false
        → IsInstalled g k
        → vertex_at (add lib repo g name namespace manifest v).0 k ≡ vertex_at g k
    unfolding add add_cluster add_namespaced
    add-kept k namespaced away there = elim (Bool-cases (str_eq namespace "")) [
      | inl e ↦ rw e (
          untouched-kept g _ k
            (add-IsUntouched lib g (ref_of manifest.name "") manifest v _ wf k
              (elim (Bool-cases (same_ref (ref_of manifest.name "") k)) [
                | inr apart ↦ apart
                | inl same ↦
                    absurd (
                      ground (arith, (same_ref_iff (ref_of manifest.name "") k).0 same, namespaced))
              ]))
            there)
      | inr e ↦ rw e (
          untouched-kept g _ k
            (add-IsUntouched lib g (ref_of name namespace) manifest v _ wf k away) there)
    ]

  -- A run that returns a graph has grown `g`.
  abbrev pub Grows : Graph V C → Resolved V C → Type 0
  Grows g (ok (h, reqs)) = Grown g h
  Grows g (err e) = Unit

  pub Grows-bind :
      {A : Type 0} (g : Graph V C) (r : Run V C A) (f : A → Resolved V C)
      → ((a : A) → r ≡ ok a → Grows g (f a))
      → Grows g (r >>= f)
  Grows-bind g (ok a) f each = each a refl
  Grows-bind g (err e) f each = tt

  pub Grows-ok :
      (g : Graph V C) (r : Resolved V C) (h : Graph V C) (reqs : List Requirement)
      → Grows g r
      → r ≡ ok (h, reqs)
      → Grown g h
  Grows-ok g (ok (s, more)) h reqs grown e = let same : s ≡ h = cc in rw (← same) grown
  Grows-ok g (err x) h reqs grown e = cc

  module _ (recurse : Graph V C → PackageRef → Resolved V C)
      (grows : (g : Graph V C) (dep : PackageRef) → IsWellFormed g → Grows g (recurse g dep))
      (transitive : Bool) where
    add-Grown :
        (g h : Graph V C) (dep : PackageRef) (manifest : PackageManifest) (v : String)
        → IsWellFormed g
        → version_of (vertex_at g (ref_of dep.name dep.namespace)) ≡ none
        → added (add lib repo g dep.name dep.namespace manifest v) ≡ ok h
        → Grown g h
    add-Grown g h dep manifest v wf missing e =
        let same = (added-ok (add lib repo g dep.name dep.namespace manifest v) h e).0 in
        rw (← same) (record {
          well_formed = manager_add-IsWellFormed g dep.name dep.namespace manifest v wf;
          kept = λ k namespaced there.
              add-kept g dep.name dep.namespace manifest v wf k namespaced
                (elim (Bool-cases (same_ref (ref_of dep.name dep.namespace) k)) [
                  | inr away ↦ away
                  | inl here ↦
                      let is_k : ref_of dep.name dep.namespace ≡ k = (same_ref_iff _ k).0 here in
                      absurd cc
                ])
                there;
        })

    install-Grows :
        (g : Graph V C) (dep : PackageRef) (v : V)
        → IsWellFormed g
        → version_of (vertex_at g (ref_of dep.name dep.namespace)) ≡ none
        → Grows g (install lib repo recurse transitive g dep v)
    unfolding install
    install-Grows g dep v wf missing =
        let reply = repo.get_manifest dep.package_name (lib.original v) in
        Grows-bind g (checked reply) _ λ manifest at_manifest.
          Grows-bind g (added (add lib repo g dep.name dep.namespace manifest (lib.original v))) _
            λ h at_h.
              let one = add-Grown g h dep manifest (lib.original v) wf missing at_h in
              Grows-bind g (recurse h dep) _ λ (s, more) at_s.
                Grown-trans g h s one
                  (Grows-ok h (recurse h dep) s more (grows h dep one.well_formed) at_s)

    install_max-Grows :
        (g : Graph V C) (dep : PackageRef) (chosen : Option V)
        → IsWellFormed g
        → version_of (vertex_at g (ref_of dep.name dep.namespace)) ≡ none
        → Grows g (install_max lib repo recurse transitive g dep chosen)
    unfolding install_max
    install_max-Grows g dep none wf missing = Grown-refl g wf
    install_max-Grows g dep (some v) wf missing = install-Grows g dep v wf missing

    with_versions-Grows :
        (g : Graph V C) (dep : PackageRef) (call : Call (List V))
        → IsWellFormed g
        → version_of (vertex_at g (ref_of dep.name dep.namespace)) ≡ none
        → Grows g (with_versions lib repo recurse transitive g dep call)
    unfolding with_versions
    with_versions-Grows g dep panicked wf missing = tt
    with_versions-Grows g dep (returned versions errs) wf missing =
        elim (Bool-cases (is_complete errs)) [
          | inl bad ↦ rw bad tt
          | inr good ↦ rw good (install_max-Grows g dep _ wf missing)
        ]

    add_dependency-Grows :
        (g : Graph V C) (dep : PackageRef)
        → IsWellFormed g
        → Grows g (add_dependency lib repo recurse transitive g dep)
    unfolding add_dependency version
    add_dependency-Grows g dep wf =
        elim (Option-cases (version_of (vertex_at g (ref_of dep.name dep.namespace)))) [
          | inr (v, there) ↦ rw there (Grown-refl g wf)
          | inl missing ↦
              rw missing
                (with_versions-Grows g dep (get_versions lib repo dep.package_name) wf missing)
        ]

    add_each-Grows :
        (deps : List PackageRef) (g : Graph V C)
        → IsWellFormed g
        → Grows g (add_each lib repo recurse transitive g deps)
    unfolding add_each
    add_each-Grows [] g wf = Grown-refl g wf
    add_each-Grows (dep ∷ deps) g wf =
        let first = add_dependency lib repo recurse transitive g dep in
        Grows-bind g first _ λ (h, reqs) at_h.
          let one = Grows-ok g first h reqs (add_dependency-Grows g dep wf) at_h in
          let rest = add_each lib repo recurse transitive h deps in
          Grows-bind g rest _ λ (s, more) at_s.
            Grown-trans g h s one
              (Grows-ok h rest s more (add_each-Grows deps h one.well_formed) at_s)

  -- A resolution that returns leaves a well-formed graph and the namespaced packages that were
  -- installed.
  pub add_dependencies-Grows :
      (fuel : ℕ) (g : Graph V C) (name namespace : String) (transitive : Bool)
      → IsWellFormed g
      → Grows g (add_dependencies lib repo fuel g name namespace transitive)
  unfolding add_dependencies
  add_dependencies-Grows zero g name namespace transitive wf = tt
  add_dependencies-Grows (suc fuel) g name namespace transitive wf =
      add_each-Grows
        (λ h (dep : PackageRef). add_dependencies lib repo fuel h dep.name dep.namespace true)
        (λ h dep ok_h. add_dependencies-Grows fuel h dep.name dep.namespace true ok_h) transitive
        (dependencies g name namespace) g wf
