-- ===== src/Graph/Queries.antt =====
-- The methods of DependencyGraph that only read it.
use glasskube.Base.{
  String, Bool, true, false, ◌&&◌, Option, none, some, List, [], ◌∷◌, if◌then◌else◌, is_some,
  is_empty,
}
use glasskube.Assoc.{get, keys, collect}
use glasskube.Semver.{Semver, is_version_upgradable, validate_version_constraint}
use glasskube.Graph.Types.{PackageRef, VertexRef, ref_key, Edge, Vertex, Graph}
use glasskube.Graph.VertexMap.{vertex_at, package_name_at}

abbrev pub ref_of : String → String → VertexRef
ref_of name namespace = record { name = name; namespace = namespace }

abbrev pub package_ref : VertexRef → String → PackageRef
package_ref ref package_name = record {
  name = ref.name;
  namespace = ref.namespace;
  package_name = package_name;
}

module _ {V C : Type 0} where
  -- DependencyGraph.Manual
  unfoldable pub manual : Graph V C → String → String → Bool
  manual g name namespace = elim (vertex_at g (ref_of name namespace)) [
    | some v ↦ v.manual
    | none ↦ false
  ]

  abbrev pub version_of : Option (Vertex V C) → Option V
  version_of none = none
  version_of (some v) = v.version

  -- DependencyGraph.Version
  unfoldable pub version : Graph V C → String → String → Option V
  version g of namespace = version_of (vertex_at g (ref_of of namespace))

  unfoldable pub edge_refs : Graph V C → List (VertexRef × Edge C) → List PackageRef
  edge_refs g [] = []
  edge_refs g ((ref, dep) ∷ rest) =
      package_ref ref (package_name_at g dep.vertex) ∷ edge_refs g rest

  -- DependencyGraph.Dependencies
  unfoldable pub dependencies : Graph V C → String → String → List PackageRef
  unfolding edge_refs
  dependencies g of namespace = elim (vertex_at g (ref_of of namespace)) [
    | some v ↦ edge_refs g v.edges
    | none ↦ []
  ]

  -- What one round of the loop of `Dependants` appends.
  unfoldable pub dependant_at : VertexRef → VertexRef → Option (Vertex V C) → List PackageRef
  dependant_at of ref none = []
  dependant_at of ref (some v) =
      if is_some v.version && is_some (get v.edges of)
      then package_ref ref v.package_name ∷ []
      else []

  -- DependencyGraph.Dependants
  unfoldable pub dependants : Graph V C → VertexRef → List PackageRef
  unfolding dependant_at
  dependants g of = collect (λ ref. dependant_at of ref (vertex_at g ref)) (keys g.vertices)

  constraint_of : Vertex V C → Option (Edge C) → List C
  constraint_of v none = []
  constraint_of v (some e) = elim e.constraint [
    | some c ↦ if is_some v.version then c ∷ [] else []
    | none ↦ []
  ]

  unfoldable pub constraints_at : VertexRef → Option (Vertex V C) → List C
  unfolding constraint_of
  constraints_at of none = []
  constraints_at of (some v) = constraint_of v (get v.edges of)

  -- DependencyGraph.Constraints
  unfoldable pub constraints : Graph V C → VertexRef → List C
  unfolding constraints_at
  constraints g of = collect (λ ref. constraints_at of (vertex_at g ref)) (keys g.vertices)

module _ {V C : Type 0} (lib : Semver V C) where
  -- The inner loop of `Max`, which leaves by `continue outer` at the first violation.
  unfoldable pub allowed : List C → V → Bool
  allowed [] version = true
  allowed (c ∷ cs) version =
      is_empty (validate_version_constraint lib version c) && allowed cs version

  abbrev pub better : Option V → V → Bool
  better none version = true
  better (some max) version = is_version_upgradable lib max version

  -- The outer loop of `Max`, from `max_version`.
  unfoldable pub max_from : List C → Option V → List V → Option V
  unfolding allowed
  max_from cs max_version [] = max_version
  max_from cs max_version (version ∷ versions) =
      max_from cs
        (if better max_version version && allowed cs version then some version else max_version)
        versions

  -- DependencyGraph.Max; `none` is the error that no version matches.
  unfoldable pub max : Graph V C → VertexRef → List V → Option V
  unfolding max_from constraints
  max g of versions = max_from (constraints g of) none versions
