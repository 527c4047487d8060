-- ===== src/Graph/Consistency.antt =====
-- Validate decides consistency.
use glasskube.Base.{
  ◌≡◌, refl, Option, none, some, [], arith, is_empty_iff, Option-cases, inl, inr, ◌↔◌,
}
use glasskube.Assoc.{get, keys, contains-keys_of_get, collect-eq-nil, collect-nil}
use glasskube.Semver.{Semver, validate_version_constraint}
use glasskube.Graph.Types.{PackageRef, VertexRef, ref_key, Edge, Vertex, Graph}
use glasskube.Graph.VertexMap.{vertex_at}
use glasskube.Graph.Lookup.{contains_of_vertex_at}
use glasskube.Graph.Queries.{version_of, package_ref}
use glasskube.Graph.Validate.{
  violation_errors, version_errors, edge_errors, vertex_errors, validate,
}

-- A dependency is met if it is installed in a version that the constraint allows.
abbrev pub IsMet : {V C : Type 0} → Semver V C → Option V → Option C → Type 0
IsMet lib none c = ⊥
IsMet lib (some version) none = Unit {0}
IsMet lib (some version) (some c) = lib.violations c version ≡ []

-- Every edge of every vertex is met.
pub record IsConsistent {V C : Type 0} (lib : Semver V C) (g : Graph V C) : Type 0 where
  pub met :
      (ref dep : VertexRef) (v : Vertex V C) (e : Edge C)
      → vertex_at g ref ≡ some v
      → get v.edges dep ≡ some e
      → IsMet lib (version_of (vertex_at g e.vertex)) e.constraint

module _ {V C : Type 0} (lib : Semver V C) where
  version_errors_iff :
      (pkg dep : PackageRef) (version : Option V) (constraint : Option C)
      → (version_errors lib pkg dep version constraint ≡ []) ↔ IsMet lib version constraint
  unfolding version_errors violation_errors validate_version_constraint
  version_errors_iff pkg dep none constraint = (λ e. cc, λ h. absurd h)
  version_errors_iff pkg dep (some v) none = (λ e. tt, λ h. refl)
  version_errors_iff pkg dep (some v) (some c) = (
    λ e. ground (arith, is_empty_iff (lib.violations c v)),
    λ e. ground (arith, is_empty_iff (lib.violations c v)),
  )

  -- The edges of one vertex: the code's errors and the specification.
  module _ (g : Graph V C) (ref : VertexRef) (v : Vertex V C) where
    IsMet-of_no_errors :
        vertex_errors lib g ref (some v) ≡ []
        → (dep : VertexRef) (e : Edge C) → get v.edges dep ≡ some e
        → IsMet lib (version_of (vertex_at g e.vertex)) e.constraint
    unfolding vertex_errors edge_errors
    IsMet-of_no_errors none_found dep e at_dep =
        let errors =
          λ (d : VertexRef). edge_errors lib g (package_ref ref v.package_name) d (get v.edges d) in
        (version_errors_iff _ _ (version_of (vertex_at g e.vertex)) e.constraint).0 (
          rw at_dep at (
            collect-eq-nil errors (keys v.edges) dep none_found
              (contains-keys_of_get v.edges dep at_dep)))

    vertex_errors-nil :
        ((dep : VertexRef) (e : Edge C)
          → get v.edges dep ≡ some e
          → IsMet lib (version_of (vertex_at g e.vertex)) e.constraint)
        → vertex_errors lib g ref (some v) ≡ []
    unfolding vertex_errors edge_errors
    vertex_errors-nil met = collect-nil _ (keys v.edges) λ dep visited.
        elim (Option-cases (get v.edges dep)) [
          | inl absent ↦ rw absent
          | inr (e, at_dep) ↦ rw at_dep ((version_errors_iff _ _ _ _).1 (met dep e at_dep))
        ]

  -- Validate reports no error exactly when every dependency is installed in an allowed version.
  pub validate_iff : (g : Graph V C) → (validate lib g ≡ []) ↔ IsConsistent lib g
  unfolding validate
  validate_iff g = (
    λ none_found. record {
      met = λ ref dep v e at_ref.
          IsMet-of_no_errors g ref v
            (rw at_ref at (
              collect-eq-nil (λ r. vertex_errors lib g r (vertex_at g r)) (keys g.vertices) ref
                none_found (contains_of_vertex_at g ref at_ref)))
            dep e;
    },
    λ consistent. collect-nil _ (keys g.vertices) λ ref visited.
        elim (Option-cases (vertex_at g ref)) [
          | inl absent ↦ rw absent (unfold vertex_errors in refl)
          | inr (v, at_ref) ↦
              rw at_ref (
                vertex_errors-nil g ref v
                  (λ dep e at_dep. consistent.met ref dep v e at_ref at_dep))
        ],
  )
