-- ===== src/Graph/Changes.antt =====
-- The methods of DependencyGraph that change it.
use Prim.Native.String.{◌++◌ as str_append}
use glasskube.Base.{
  ℕ, zero, suc, ◌+◌, String, Bool, true, false, not, ◌&&◌, Option, none, some, List, [], ◌∷◌, ◌++◌,
  str_eq, Result, ok, err, ◌>>=◌, if◌then◌else◌, is_some, is_empty,
}
use glasskube.Semver.{Semver}
use glasskube.Manifest.{Dependency, Component, PackageManifest}
use glasskube.Graph.Types.{PackageRef, VertexRef, ref_key, Vertex, Graph, DependencyError}
use glasskube.Graph.VertexMap.{
  vertex_at, vertex, edge, modify, delete_vertex, deep_copy, package_name_at,
}
use glasskube.Graph.Queries.{ref_of, package_ref, dependants}
use glasskube.Graph.Validate.{validate}

-- util.ComponentName
unfoldable pub component_name : String → Component → String
component_name parent_name cmp =
    if str_eq cmp.installed_name ""
    then str_append (str_append parent_name "-") cmp.name
    else str_append (str_append parent_name "-") cmp.installed_name

-- cmpRef of the second loop of `add`.
abbrev pub component_ref : VertexRef → String → Component → VertexRef
component_ref ref default_namespace cmp =
    ref_of (component_name ref.name cmp)
      (if str_eq ref.namespace "" then default_namespace else ref.namespace)

-- A graph, and the error with which the method that changed it returned.
abbrev pub Outcome : Type 0 → Type 0 → Type 0
Outcome V C = Graph V C × Option String

module _ {V C : Type 0} where
  -- `if err != nil { return err }`, and then the rest of the method.
  abbrev pub and_then : Outcome V C → (Graph V C → Outcome V C) → Outcome V C
  and_then (g, none) rest = rest g
  and_then (g, some e) rest = (g, some e)

module _ {V C : Type 0} (lib : Semver V C) where
  -- The constraint of a dependency or component, of which "" is none.
  unfoldable pub parse_constraint : String → Result String (Option C)
  parse_constraint version =
      if str_eq version "" then ok none else lib.new_constraint version >>= λ c. ok (some c)

  -- The body of the two loops of `add`, for an edge from `from` to `to`.
  unfoldable pub add_edge : Graph V C → VertexRef → VertexRef → String → String → Outcome V C
  add_edge g from to name version =
      let g1 = vertex g to name in
      elim (parse_constraint version) [ ok c ↦ (edge g1 from to c, none) | err e ↦ (g1, some e) ]

  unfoldable pub add_dependencies : Graph V C → VertexRef → List Dependency → Outcome V C
  unfolding add_edge
  add_dependencies g from [] = (g, none)
  add_dependencies g from (dep ∷ deps) =
      and_then (add_edge g from (ref_of dep.name "") dep.name dep.version)
        (λ g'. add_dependencies g' from deps)

  unfoldable pub add_components : Graph V C → VertexRef → String → List Component → Outcome V C
  unfolding add_edge component_name
  add_components g from default_namespace [] = (g, none)
  add_components g from default_namespace (cmp ∷ cmps) =
      and_then (add_edge g from (component_ref from default_namespace cmp) cmp.name cmp.version)
        (λ g'. add_components g' from default_namespace cmps)

  abbrev pub installed_as : V → Bool → Vertex V C → Vertex V C
  installed_as v manual x = record x { version = some v; manual = manual; edges = [] }

  -- DependencyGraph.add
  unfoldable pub add : Graph V C → VertexRef → PackageManifest → String → Bool → Outcome V C
  unfolding add_dependencies add_components modify vertex delete_vertex
  add g ref manifest version manual =
      let g1 = vertex g ref manifest.name in
      if str_eq version ""
      then ((delete_vertex g1 ref).0, none)
      else elim (lib.new_version version) [
        | err e ↦ (g1, some e)
        | ok v ↦
            and_then
              (add_dependencies (modify g1 ref (installed_as v manual)) ref manifest.dependencies)
              (λ g2. add_components g2 ref manifest.default_namespace manifest.components)
      ]

  -- DependencyGraph.AddCluster
  unfoldable pub add_cluster : Graph V C → PackageManifest → String → Bool → Outcome V C
  add_cluster g manifest version manual = add g (ref_of manifest.name "") manifest version manual

  -- DependencyGraph.AddNamespaced
  unfoldable pub add_namespaced :
      Graph V C → String → String → PackageManifest → String → Bool → Outcome V C
  add_namespaced g name namespace manifest version manual =
      add g (ref_of name namespace) manifest version manual

-- The variables of `Prune`.
pub record Pruning (V C : Type 0) : Type 0 where
  pub graph : Graph V C
  pub removed : List PackageRef
  pub stable : Bool

module _ {V C : Type 0} where
  -- DependencyGraph.Delete
  unfoldable pub delete : Graph V C → String → String → Graph V C × Bool
  unfolding delete_vertex vertex
  delete g name namespace =
      delete_vertex (vertex g (ref_of name namespace) "") (ref_of name namespace)

  -- What the loop body does once `delete` has returned.
  abbrev record_deletion : Pruning V C → VertexRef → String → Graph V C × Bool → Pruning V C
  record_deletion s ref package_name (g, false) = record s { graph = g }
  record_deletion s ref package_name (g, true) = record {
    graph = g;
    removed = s.removed ++ package_ref ref package_name ∷ [];
    stable = false;
  }

  -- The body of the inner loop of `Prune`, at the vertex `ref`.
  unfoldable pub prune_visit : Pruning V C → VertexRef → Pruning V C
  unfolding delete_vertex
  prune_visit s ref = elim (vertex_at s.graph ref) [
    | none ↦ s
    | some v ↦
        if not v.manual && is_empty (dependants s.graph ref)
        then record_deletion s ref v.package_name (delete_vertex s.graph ref)
        else s
  ]

  -- One `range` over the vertices, in the order in which the runtime visits them.
  unfoldable pub prune_round : Pruning V C → List VertexRef → Pruning V C
  prune_round s [] = s
  prune_round s (ref ∷ refs) = prune_round (prune_visit s ref) refs

  -- The outer loop. Round `n` visits `order n`; `none` means that the fuel ran out.
  unfoldable pub prune_from :
      ℕ
      → (ℕ → List VertexRef)
      → ℕ
      → Graph V C
      → List PackageRef
      → Option (Graph V C × List PackageRef)
  prune_from zero order n g removed = none
  prune_from (suc fuel) order n g removed =
      let s = prune_round (record { graph = g; removed = removed; stable = true }) (order n) in
      let rest = prune_from fuel order (suc n) s.graph s.removed in
      if s.stable then some (s.graph, s.removed) else rest

  -- The number of installed vertices, which every round but the last makes smaller.
  unfoldable pub count_installed : List (VertexRef × Vertex V C) → ℕ
  count_installed [] = 0
  count_installed ((ref, v) ∷ rest) = (if is_some v.version then 1 else 0) + count_installed rest

  -- DependencyGraph.Prune
  unfoldable pub prune : (ℕ → List VertexRef) → Graph V C → Option (Graph V C × List PackageRef)
  unfolding prune_from count_installed
  prune order g = prune_from (suc (count_installed g.vertices)) order 0 g []

  abbrev prune_deleted :
      (ℕ → List VertexRef) → PackageRef → Graph V C × Bool → Option (Graph V C × List PackageRef)
  prune_deleted order ref (g, false) = some (g, [])
  prune_deleted order ref (g, true) = elim (prune order g) [
    | none ↦ none
    | some (h, removed) ↦ some (h, ref ∷ removed)
  ]

  -- DependencyGraph.DeleteAndPrune
  unfoldable pub delete_and_prune :
      (ℕ → List VertexRef) → Graph V C → String → String → Option (Graph V C × List PackageRef)
  unfolding delete_vertex vertex
  delete_and_prune order g name namespace =
      let ref = ref_of name namespace in
      let g1 = vertex g ref "" in
      prune_deleted order (package_ref ref (package_name_at g1 ref)) (delete_vertex g1 ref)

module _ {V C : Type 0} (lib : Semver V C) where
  -- DependencyGraph.ValidateDelete: what would be removed, and the errors of the graph then.
  unfoldable pub validate_delete :
      (ℕ → List VertexRef)
      → Graph V C
      → String
      → String
      → Option (List PackageRef × List (DependencyError V C))
  unfolding deep_copy delete_and_prune
  validate_delete order g name namespace =
      elim (delete_and_prune order (deep_copy g) name namespace) [
        | none ↦ none
        | some (gc, removed) ↦ some (removed, validate lib gc)
      ]
