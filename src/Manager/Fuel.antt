-- ===== src/Manager/Fuel.antt =====
-- The packages that are missing in a graph of internal/dependency/manager.go, which bound the depth of
-- addDependencies, and what one round does to them.
use glasskube.Base.{
  ℕ, ◌+◌, ◌≤◌, ◌<◌, String, ◌≡◌, ◌≢◌, refl, sym, ap, ◌∙◌, Bool, true, false, Option, none, some,
  List, [], ◌∷◌, arith, str_eq, eq_iff, ok, err, if◌then◌else◌, length, Bool-cases, inl, inr, IsIn,
  here, there,
}
use mathlib.Core.Path.{subst}
use glasskube.Semver.{Semver}
use glasskube.Manifest.{PackageManifest}
use glasskube.Graph.Types.{PackageRef, VertexRef, same_ref, same_ref_iff, Graph}
use glasskube.Graph.Lookup.{installed_at}
use glasskube.Graph.Queries.{ref_of, package_ref, manual}
use glasskube.Graph.Changes.{Outcome, add_cluster, add_namespaced, add as graph_add}
use glasskube.Graph.Add.{Target, targets}
use glasskube.Graph.Add.Contract.{add-IsWellFormed, add-IsUntouched, add_installs}
use glasskube.Graph.WellFormed.{IsWellFormed}
use glasskube.Manager.Types.{
  Call, returned, panicked, Stop, out_of_fuel, Faults, is_complete, Run, checked, RepoAdapter,
}
use glasskube.Manager.Installed.{added}
use glasskube.Manager.Resolve.{add}
use glasskube.Manager.Plan.{added-ok}
use glasskube.Manager.Covered.{IsCovered, add-IsCovered}

abbrev pub vertex_of : PackageRef → VertexRef
vertex_of p = ref_of p.name p.namespace

module _ {V C : Type 0} where
  -- What is installed in `g` is installed in `h`.
  abbrev pub KeepsInstalled : Graph V C → Graph V C → Type 0
  KeepsInstalled g h = (k : VertexRef) → installed_at g k ≡ true → installed_at h k ≡ true

  -- How many of the packages are not installed.
  unfoldable pub missing : Graph V C → List PackageRef → ℕ
  missing g [] = 0
  missing g (p ∷ ps) = (if installed_at g (vertex_of p) then 0 else 1) + missing g ps

  pub missing-le :
      (g h : Graph V C) (ps : List PackageRef) → KeepsInstalled g h → missing h ps ≤ missing g ps
  unfolding missing
  missing-le g h [] keeps = ground arith
  missing-le g h (p ∷ ps) keeps = ground (arith, keeps (vertex_of p), missing-le g h ps keeps)

  pub missing-lt :
      (g h : Graph V C) (ps : List PackageRef) (p : PackageRef)
      → KeepsInstalled g h
      → IsIn p ps
      → installed_at g (vertex_of p) ≡ false
      → installed_at h (vertex_of p) ≡ true
      → missing h ps < missing g ps
  unfolding missing
  missing-lt g h [] p keeps m before after = elim m [ ]
  missing-lt g h (q ∷ ps) p keeps m before after = elim m [
    | here is_p ↦
        let before_q = ap (λ (x : PackageRef). installed_at g (vertex_of x)) is_p ∙ before in
        let after_q = ap (λ (x : PackageRef). installed_at h (vertex_of x)) is_p ∙ after in
        ground (arith, before_q, after_q, missing-le g h ps keeps)
    | there later ↦
        ground (arith, keeps (vertex_of q), missing-lt g h ps p keeps later before after)
  ]

  pub missing-length : (g : Graph V C) (ps : List PackageRef) → missing g ps ≤ length ps
  unfolding missing
  missing-length g [] = ground arith
  missing-length g (p ∷ ps) = ground (arith, missing-length g ps)

  pub checked-ok :
      {A : Type 0} (c : Call (Option A)) {a : A}
      → ◌≡◌ {A = Run V C A} (checked c) (ok a)
      → (errs : Faults) × (c ≡ returned (some a) errs)
  unfolding checked
  checked-ok panicked e = cc
  checked-ok (returned none errs) e = elim (Bool-cases (is_complete errs)) [
    | inl bad ↦ cc (rw bad at e)
    | inr good ↦ cc (rw good at e)
  ]
  checked-ok {A = A} (returned (some b) errs) {a} e = elim (Bool-cases (is_complete errs)) [
    | inl bad ↦ cc (rw bad at e)
    | inr good ↦
        let same : b ≡ a = cc (rw good at e) in (errs, ap (λ (x : A). returned (some x) errs) same)
  ]

  pub checked-err :
      {A : Type 0} (c : Call (Option A)) {e : Stop V C}
      → ◌≡◌ {A = Run V C A} (checked c) (err e)
      → e ≢ out_of_fuel
  unfolding checked
  checked-err panicked e is_out = cc
  checked-err (returned none errs) e is_out = elim (Bool-cases (is_complete errs)) [
    | inl bad ↦ cc (rw bad at e, is_out)
    | inr good ↦ cc (rw good at e, is_out)
  ]
  checked-err (returned (some b) errs) e is_out = elim (Bool-cases (is_complete errs)) [
    | inl bad ↦ cc (rw bad at e, is_out)
    | inr good ↦ cc (rw good at e, is_out)
  ]

  pub added-err :
      (r : Outcome V C) {e : Stop V C}
      → ◌≡◌ {A = Run V C (Graph V C)} (added r) (err e)
      → e ≢ out_of_fuel
  added-err (g, none) e is_out = cc
  added-err (g, some x) e is_out = cc

-- The packages that a resolution can meet: a repository answers for a package with a manifest of its
-- name, that declares packages of the list only, and a cluster package has the name of its package.
pub record IsClosed (repo : RepoAdapter) (packages : List PackageRef) : Type 0 where
  pub cluster : (p : PackageRef) → IsIn p packages → p.namespace ≡ "" → p.name ≡ p.package_name
  pub named :
      (p : PackageRef) (v : String) (manifest : PackageManifest) (errs : Faults)
      → IsIn p packages
      → repo.get_manifest p.package_name v ≡ returned (some manifest) errs
      → manifest.name ≡ p.package_name
  pub declares :
      (p : PackageRef) (v : String) (manifest : PackageManifest) (errs : Faults) (t : Target)
      → IsIn p packages
      → repo.get_manifest p.package_name v ≡ returned (some manifest) errs
      → IsIn t (targets (vertex_of p) manifest)
      → IsIn (package_ref t.to t.name) packages

module _ {V C : Type 0} (lib : Semver V C) (repo : RepoAdapter) (packages : List PackageRef) where
  abbrev pub IsTame : Graph V C → Type 0
  IsTame g = IsWellFormed g × IsCovered packages g

  graph_add-KeepsInstalled :
      (g : Graph V C) (ref : VertexRef) (manifest : PackageManifest) (v : String) (by_hand : Bool)
      → IsWellFormed g
      → v ≢ ""
      → (graph_add lib g ref manifest v by_hand).1 ≡ none
      → KeepsInstalled g (graph_add lib g ref manifest v by_hand).0
        × (installed_at (graph_add lib g ref manifest v by_hand).0 ref ≡ true)
  graph_add-KeepsInstalled g ref manifest v by_hand wf nonempty success =
      let (w, es, _, _, at_ref) = add_installs lib g ref manifest v by_hand wf nonempty success in
      let there_ref : installed_at (graph_add lib g ref manifest v by_hand).0 ref ≡ true =
        rw at_ref refl in
      (
        λ k before. elim (Bool-cases (same_ref ref k)) [
          | inl is_k ↦
              subst
                (λ (r : VertexRef).
                  installed_at (graph_add lib g ref manifest v by_hand).0 r ≡ true)
                ((same_ref_iff ref k).0 is_k) there_ref
          | inr away ↦ elim (add-IsUntouched lib g ref manifest v by_hand wf k away) [
            | inl same ↦ rw same before
            | inr (gone, name, _) ↦ cc (rw gone at before)
          ]
        ],
        there_ref,
      )

  -- The manager adds a package of the list under its own key.
  add-eq-graph_add :
      (g : Graph V C) (p : PackageRef) (manifest : PackageManifest) (v : String)
      → (p.namespace ≡ "" → manifest.name ≡ p.name)
      → add lib repo g p.name p.namespace manifest v
        ≡ graph_add lib g (vertex_of p) manifest v (manual g manifest.name "")
  unfolding add add_cluster add_namespaced
  add-eq-graph_add g p manifest v named = elim (Bool-cases (str_eq p.namespace "")) [
    | inr namespaced ↦ rw (namespaced, add) refl
    | inl cluster ↦
        let is_cluster = (eq_iff p.namespace "").0 cluster in
        rw (cluster, add)
          (ap (λ (r : VertexRef). graph_add lib g r manifest v (manual g manifest.name ""))
            (rw (named is_cluster, is_cluster) refl))
  ]

  -- A round that adds a package of the list installs it, and keeps what is installed.
  pub add_round :
      (g h : Graph V C) (p : PackageRef) (manifest : PackageManifest) (v : String)
      → IsClosed repo packages
      → IsIn p packages
      → v ≢ ""
      → IsTame g
      → ◌≡◌ {A = Run V C PackageManifest}
          (checked (repo.get_manifest p.package_name v))
          (ok manifest)
      → added (add lib repo g p.name p.namespace manifest v) ≡ ok h
      → IsTame h × KeepsInstalled g h × (installed_at h (vertex_of p) ≡ true)
  add_round g h p manifest v closed listed nonempty (wf, covered) got done =
      let (errs, reply) = checked-ok (repo.get_manifest p.package_name v) got in
      let named = closed.named p v manifest errs listed reply in
      let by_hand = manual g manifest.name "" in
      let one = add-eq-graph_add g p manifest v (λ c. named ∙ sym (closed.cluster p listed c)) in
      let (is_h, success) = added-ok (add lib repo g p.name p.namespace manifest v) h done in
      let out : (graph_add lib g (vertex_of p) manifest v by_hand).0 ≡ h =
        ap (λ (o : Outcome V C). o.0) (sym one) ∙ is_h in
      let fine : (graph_add lib g (vertex_of p) manifest v by_hand).1 ≡ none =
        ap (λ (o : Outcome V C). o.1) (sym one) ∙ success in
      let (kept, after) =
        graph_add-KeepsInstalled g (vertex_of p) manifest v by_hand wf nonempty fine in
      subst
        (λ (x : Graph V C). IsTame x × KeepsInstalled g x × (installed_at x (vertex_of p) ≡ true))
        out
        (
          (
            add-IsWellFormed lib g (vertex_of p) manifest v by_hand wf,
            add-IsCovered packages lib g (vertex_of p) manifest v by_hand
                (subst (λ (n : String). IsIn (package_ref (vertex_of p) n) packages) (sym named)
                  listed)
                (λ t m. closed.declares p v manifest errs t listed reply m) covered,
          ),
          kept,
          after,
        )
