-- ===== src/Graph/Lookup.antt =====
-- What a look-up finds after each operation on `vertexMap`.
use glasskube.Base.{
  String, ◌≡◌, refl, ap, Bool, true, false, Option, none, some, [], arith, if◌then◌else◌, is_some,
  Option-cases, inl, inr,
}
use glasskube.Assoc.{
  get, get-put, keys, contains, contains-keys_of_get, collect-eq-nil, collect-nil,
}
use glasskube.Graph.Types.{VertexRef, ref_key, same_ref, same_ref_iff, Vertex, Graph}
use glasskube.Graph.VertexMap.{vertex_at, write, create_vertex, vertex, modify}
use glasskube.Graph.Queries.{version_of, dependant_at, dependants}

module _ {V C : Type 0} where
  -- Is `ref` installed?
  abbrev pub installed_at : Graph V C → VertexRef → Bool
  installed_at g ref = is_some (version_of (vertex_at g ref))

  -- The vertex that `vertexMap.vertex` returns.
  abbrev pub or_new : Option (Vertex V C) → String → Vertex V C
  or_new (some v) package_name = v
  or_new none package_name = record {
    package_name = package_name;
    version = none;
    manual = false;
    edges = [];
  }

  -- A `range` over the vertices visits every vertex.
  pub contains_of_vertex_at :
      (g : Graph V C) (ref : VertexRef) {v : Vertex V C}
      → vertex_at g ref ≡ some v
      → contains (keys g.vertices) ref ≡ true
  unfolding vertex_at
  contains_of_vertex_at g ref found = contains-keys_of_get g.vertices ref found

  pub vertex_at-write :
      (g : Graph V C) (ref k : VertexRef) (v : Vertex V C)
      → vertex_at (write g ref v) k ≡ (if same_ref ref k then some v else vertex_at g k)
  unfolding vertex_at
  vertex_at-write g ref k v = get-put g.vertices ref k v

  pub vertex_at-vertex :
      (g : Graph V C) (ref k : VertexRef) (package_name : String)
      → vertex_at (vertex g ref package_name) k
        ≡ (if same_ref ref k then some (or_new (vertex_at g ref) package_name) else vertex_at g k)
  unfolding vertex create_vertex
  vertex_at-vertex g ref k package_name = elim (Option-cases (vertex_at g ref)) [
    | inl e ↦ rw (e, vertex) (vertex_at-write g ref k (or_new none package_name))
    | inr (v, e) ↦
        rw (e, vertex)
          (ground (arith, same_ref_iff ref k, λ (p : ref ≡ k). ap (λ r. vertex_at g r) p))
  ]

  pub modify-eq-write :
      (g : Graph V C) (ref : VertexRef) (f : Vertex V C → Vertex V C) (v : Vertex V C)
      → vertex_at g ref ≡ some v
      → modify g ref f ≡ write g ref (f v)
  unfolding modify
  modify-eq-write g ref f v e = rw (e, modify)

  abbrev pub map_vertex : (Vertex V C → Vertex V C) → Option (Vertex V C) → Option (Vertex V C)
  map_vertex f none = none
  map_vertex f (some v) = some (f v)

  pub vertex_at-modify :
      (g : Graph V C) (ref k : VertexRef) (f : Vertex V C → Vertex V C)
      → vertex_at (modify g ref f) k
        ≡ (if same_ref ref k then map_vertex f (vertex_at g ref) else vertex_at g k)
  unfolding modify
  vertex_at-modify g ref k f = elim (Option-cases (vertex_at g ref)) [
    | inl e ↦
        rw (e, modify)
          (ground (arith, same_ref_iff ref k, λ (p : ref ≡ k). ap (λ r. vertex_at g r) p))
    | inr (v, e) ↦ rw (e, modify) (vertex_at-write g ref k (f v))
  ]

  -- A vertex without dependants is on no edge of an installed vertex.
  pub dependants-eq-nil :
      (g : Graph V C) (of r : VertexRef) (v : Vertex V C)
      → dependants g of ≡ []
      → vertex_at g r ≡ some v
      → is_some v.version ≡ true
      → get v.edges of ≡ none
  unfolding dependants dependant_at vertex_at
  dependants-eq-nil g of r v e found installed = ground (
    arith,
    collect-eq-nil (λ ref. dependant_at of ref (vertex_at g ref)) (keys g.vertices) r e
        (contains-keys_of_get g.vertices r found),
  )

  pub dependants-nil :
      (g : Graph V C) (of : VertexRef)
      → ((r : VertexRef) (v : Vertex V C)
          → vertex_at g r ≡ some v
          → is_some v.version ≡ true
          → get v.edges of ≡ none)
      → dependants g of ≡ []
  unfolding dependants
  dependants-nil g of unneeded = collect-nil _ (keys g.vertices) λ r visited.
      elim (Option-cases (vertex_at g r)) [
        | inl absent ↦ rw absent (unfold dependant_at in refl)
        | inr (v, found) ↦ rw found (unfold dependant_at in ground (arith, unneeded r v found))
      ]
