-- ===== src/Graph/WellFormed.antt =====
-- An invariant of the graphs that the methods of DependencyGraph build.
use glasskube.Base.{
  String, ◌≡◌, refl, ap, true, Option, none, some, [], arith, is_some, Option-cases, Bool-cases,
  inl, inr,
}
use glasskube.Assoc.{get, get-put}
use glasskube.Graph.Types.{VertexRef, ref_key, same_ref, same_ref_iff, Edge, Vertex, Graph}
use glasskube.Graph.VertexMap.{
  vertex_at, write, vertex, modify, edge, set_edge, cleared, delete_vertex, empty_graph,
}
use glasskube.Graph.Lookup.{installed_at, vertex_at-write, vertex_at-vertex, or_new}

-- What holds of one vertex of `g`: an edge points to the vertex under its own key, which exists,
-- and a vertex that is not installed has no edges.
pub record IsVertexOf {V C : Type 0} (g : Graph V C) (v : Vertex V C) : Type 0 where
  pub linked : (dep : VertexRef) (e : Edge C) → get v.edges dep ≡ some e → e.vertex ≡ dep
  pub present :
      (dep : VertexRef) (e : Edge C) → get v.edges dep ≡ some e → is_some (vertex_at g dep) ≡ true
  pub idle : v.version ≡ none → v.edges ≡ []

pub record IsWellFormed {V C : Type 0} (g : Graph V C) : Type 0 where
  pub at : (ref : VertexRef) (v : Vertex V C) → vertex_at g ref ≡ some v → IsVertexOf g v

module _ {V C : Type 0} where
  -- No vertex of `g` is missing in `h`.
  abbrev pub Extends : Graph V C → Graph V C → Type 0
  Extends g h = (k : VertexRef) → is_some (vertex_at g k) ≡ true → is_some (vertex_at h k) ≡ true

  pub Extends-write : (g : Graph V C) (ref : VertexRef) (v : Vertex V C) → Extends g (write g ref v)
  Extends-write g ref v k h = ground (arith, vertex_at-write g ref k v)

  pub Extends-vertex :
      (g : Graph V C) (ref : VertexRef) (name : String) → Extends g (vertex g ref name)
  Extends-vertex g ref name k h = ground (arith, vertex_at-vertex g ref k name)

  IsVertexOf-extend :
      (g h : Graph V C) (v : Vertex V C) → Extends g h → IsVertexOf g v → IsVertexOf h v
  IsVertexOf-extend g h v more ok_v = record {
    linked = ok_v.linked;
    present = λ dep e at. more dep (ok_v.present dep e at);
    idle = ok_v.idle;
  }

  pub IsVertexOf-no_edges : (g : Graph V C) (v : Vertex V C) → v.edges ≡ [] → IsVertexOf g v
  unfolding get
  IsVertexOf-no_edges g v none_there = record {
    linked = λ dep e at. ground (arith, none_there);
    present = λ dep e at. ground (arith, none_there);
    idle = λ p. none_there;
  }

  -- A write keeps the invariant if what is written satisfies it.
  pub write-IsWellFormed :
      (g : Graph V C) (ref : VertexRef) (v : Vertex V C)
      → IsWellFormed g
      → IsVertexOf (write g ref v) v
      → IsWellFormed (write g ref v)
  write-IsWellFormed g ref v wf ok_v = record {
    at = λ k w found. elim (Bool-cases (same_ref ref k)) [
      | inl here ↦ let e : v ≡ w = ground (arith, vertex_at-write g ref k v) in rw (← e) ok_v
      | inr away ↦
          IsVertexOf-extend g (write g ref v) w (Extends-write g ref v)
            (wf.at k w (ground (arith, vertex_at-write g ref k v)))
    ];
  }

  pub vertex-IsWellFormed :
      (g : Graph V C) (ref : VertexRef) (name : String)
      → IsWellFormed g
      → IsWellFormed (vertex g ref name)
  unfolding vertex
  vertex-IsWellFormed g ref name wf = elim (Option-cases (vertex_at g ref)) [
    | inl absent ↦
        rw (absent, vertex)
          (write-IsWellFormed g ref (or_new none name) wf (IsVertexOf-no_edges _ _ refl))
    | inr (v, found) ↦ rw (found, vertex) wf
  ]

  pub modify-IsWellFormed :
      (g : Graph V C) (ref : VertexRef) (f : Vertex V C → Vertex V C)
      → IsWellFormed g
      → ((v : Vertex V C) → vertex_at g ref ≡ some v → IsVertexOf (write g ref (f v)) (f v))
      → IsWellFormed (modify g ref f)
  unfolding modify
  modify-IsWellFormed g ref f wf keeps = elim (Option-cases (vertex_at g ref)) [
    | inl absent ↦ rw (absent, modify) wf
    | inr (v, found) ↦ rw (found, modify) (write-IsWellFormed g ref (f v) wf (keeps v found))
  ]

  -- DependencyGraph.delete keeps the invariant.
  pub delete_vertex-IsWellFormed :
      (g : Graph V C) (ref : VertexRef) → IsWellFormed g → IsWellFormed (delete_vertex g ref).0
  unfolding delete_vertex
  delete_vertex-IsWellFormed g ref wf =
      modify-IsWellFormed g ref cleared wf (λ v found. IsVertexOf-no_edges _ _ refl)

  set_edge-IsVertexOf :
      (g : Graph V C) (to : VertexRef) (c : Option C) (v : Vertex V C)
      → is_some (vertex_at g to) ≡ true
      → is_some v.version ≡ true
      → IsVertexOf g v
      → IsVertexOf g (set_edge to c v)
  set_edge-IsVertexOf g to c v there installed ok_v = record {
    linked = λ dep e at. ground (
      arith,
      get-put v.edges to dep (record { constraint = c; vertex = to }),
      same_ref_iff to dep,
      ok_v.linked dep e,
    );
    present = λ dep e at. elim (Bool-cases (same_ref to dep)) [
      | inl here ↦ rw (← (same_ref_iff to dep).0 here) there
      | inr away ↦
          ok_v.present dep e
            (ground (arith, get-put v.edges to dep (record { constraint = c; vertex = to })))
    ];
    idle = λ missing. absurd (ground (arith, missing));
  }

  -- vertexMap.edge keeps the invariant at an installed vertex.
  pub edge-IsWellFormed :
      (g : Graph V C) (from to : VertexRef) (c : Option C)
      → installed_at g from ≡ true
      → IsWellFormed g
      → IsWellFormed (edge g from to c)
  unfolding edge
  edge-IsWellFormed g from to c installed wf =
      let g' : Graph V C = vertex g to "" in
      let wf' : IsWellFormed g' = vertex-IsWellFormed g to "" wf in
      modify-IsWellFormed g' from (set_edge to c) wf' λ v found.
        let ok_v =
          set_edge-IsVertexOf g' to c v
            (ground (arith, vertex_at-vertex g to to "", same_ref_iff to to))
            (ground (
              arith,
              found,
              vertex_at-vertex g to from "",
              same_ref_iff to from,
              λ (p : to ≡ from). ap (λ r. vertex_at g r) p,
            ))
            (wf'.at from v found) in
        IsVertexOf-extend g' (write g' from (set_edge to c v)) (set_edge to c v)
          (Extends-write g' from (set_edge to c v)) ok_v

-- NewGraph
pub empty-IsWellFormed : {V C : Type 0} → IsWellFormed (empty_graph {V = V} {C = C})
unfolding vertex_at get
empty-IsWellFormed = record { at = λ ref v found. cc }
