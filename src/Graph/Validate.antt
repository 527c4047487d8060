-- ===== src/Graph/Validate.antt =====
-- DependencyGraph.Validate and the errors that it collects.
use glasskube.Base.{Option, none, some, List, [], ◌∷◌, if◌then◌else◌, is_empty}
use glasskube.Assoc.{get, keys, collect}
use glasskube.Semver.{Semver, validate_version_constraint}
use glasskube.Graph.Types.{
  PackageRef, VertexRef, ref_key, Edge, Vertex, Graph, DependencyError, not_installed,
  constraint_error,
}
use glasskube.Graph.VertexMap.{vertex_at, package_name_at}
use glasskube.Graph.Queries.{version_of, package_ref}

module _ {V C : Type 0} (lib : Semver V C) where
  -- ErrDependency(pkgRef, depRef, ErrConstraint(...)), if the version violates the constraint.
  unfoldable pub violation_errors :
      PackageRef → PackageRef → V → Option C → List (DependencyError V C)
  violation_errors pkg dep version none = []
  violation_errors pkg dep version (some c) =
      let err1 = validate_version_constraint lib version c in
      if is_empty err1
      then []
      else record { pkg = pkg; dep = dep; cause = constraint_error dep version c err1 } ∷ []

  unfoldable pub version_errors :
      PackageRef → PackageRef → Option V → Option C → List (DependencyError V C)
  unfolding violation_errors
  version_errors pkg dep none constraint =
      record { pkg = pkg; dep = dep; cause = not_installed dep } ∷ []
  version_errors pkg dep (some version) constraint = violation_errors pkg dep version constraint

  -- One round of the inner loop, for the entry of `vertex.edges` at `dep`.
  unfoldable pub edge_errors :
      Graph V C → PackageRef → VertexRef → Option (Edge C) → List (DependencyError V C)
  unfolding version_errors
  edge_errors g pkg dep none = []
  edge_errors g pkg dep (some e) =
      version_errors pkg (package_ref dep (package_name_at g e.vertex))
        (version_of (vertex_at g e.vertex)) e.constraint

  unfoldable pub vertex_errors :
      Graph V C → VertexRef → Option (Vertex V C) → List (DependencyError V C)
  unfolding edge_errors
  vertex_errors g ref none = []
  vertex_errors g ref (some v) =
      collect (λ dep. edge_errors g (package_ref ref v.package_name) dep (get v.edges dep))
        (keys v.edges)

  -- DependencyGraph.Validate: the errors that multierr combines.
  unfoldable pub validate : Graph V C → List (DependencyError V C)
  unfolding vertex_errors
  validate g = collect (λ ref. vertex_errors g ref (vertex_at g ref)) (keys g.vertices)
