-- ===== src/Graph/VertexMap.antt =====
-- The methods of `vertexMap` in internal/dependency/graph/graph.go, and writes through a *vertex.
use glasskube.Base.{String, Bool, false, Option, none, some, List, [], ◌∷◌, is_some}
use glasskube.Assoc.{get, put}
use glasskube.Graph.Types.{VertexRef, ref_key, Edge, Vertex, Graph}

module _ {V C : Type 0} where
  -- g.vertices[ref]
  unfoldable pub vertex_at : Graph V C → VertexRef → Option (Vertex V C)
  vertex_at g ref = get g.vertices ref

  abbrev pub write : Graph V C → VertexRef → Vertex V C → Graph V C
  write g ref v = record { vertices = put g.vertices ref v }

  -- vertexMap.createVertex
  unfoldable pub create_vertex : Graph V C → VertexRef → String → Graph V C
  create_vertex g key package_name =
      write g key
        (record { package_name = package_name; version = none; manual = false; edges = [] })

  -- vertexMap.vertex: the graph in which the vertex exists; the vertex returned is `key`.
  unfoldable pub vertex : Graph V C → VertexRef → String → Graph V C
  unfolding create_vertex
  vertex g key package_name = elim (vertex_at g key) [
    | some v ↦ g
    | none ↦ create_vertex g key package_name
  ]

  -- A write through the pointer `ref`; a pointer to no vertex does not occur.
  unfoldable pub modify : Graph V C → VertexRef → (Vertex V C → Vertex V C) → Graph V C
  modify g ref f = elim (vertex_at g ref) [ some v ↦ write g ref (f v) | none ↦ g ]

  abbrev pub set_edge : VertexRef → Option C → Vertex V C → Vertex V C
  set_edge to constraint v = record v {
    edges = put v.edges to (record { constraint = constraint; vertex = to });
  }

  -- vertexMap.edge
  unfoldable pub edge : Graph V C → VertexRef → VertexRef → Option C → Graph V C
  unfolding modify vertex
  edge g from to constraint = modify (vertex g to "") from (set_edge to constraint)

  -- The vertex of `delete` when it returns.
  abbrev pub cleared : Vertex V C → Vertex V C
  cleared v = record v { version = none; manual = false; edges = [] }

  abbrev pub deleted_at : Option (Vertex V C) → Bool
  deleted_at none = false
  deleted_at (some v) = is_some v.version

  -- DependencyGraph.delete: the graph, and whether a version was installed.
  unfoldable pub delete_vertex : Graph V C → VertexRef → Graph V C × Bool
  unfolding modify
  delete_vertex g ref = (modify g ref cleared, deleted_at (vertex_at g ref))

  abbrev pub empty_graph : Graph V C
  empty_graph = record { vertices = [] }

  abbrev pub package_name_at : Graph V C → VertexRef → String
  package_name_at g ref = elim (vertex_at g ref) [ some v ↦ v.package_name | none ↦ "" ]

  -- The inner loop of `deepCopy`, over the edges of the vertex `ref` of the old map.
  copy_edges : Graph V C → VertexRef → Graph V C → List (VertexRef × Edge C) → Graph V C
  unfolding edge vertex
  copy_edges old ref new [] = new
  copy_edges old ref new ((to, e) ∷ rest) =
      copy_edges old ref (edge (vertex new to (package_name_at old e.vertex)) ref to e.constraint)
        rest

  -- The outer loop.
  copy_vertices : Graph V C → Graph V C → List (VertexRef × Vertex V C) → Graph V C
  unfolding copy_edges modify vertex
  copy_vertices old new [] = new
  copy_vertices old new ((ref, v) ∷ rest) =
      copy_vertices old
        (copy_edges old ref
          (modify (vertex new ref v.package_name) ref
            (λ w. record w { version = v.version; manual = v.manual }))
          v.edges)
        rest

  -- vertexMap.deepCopy and DependencyGraph.DeepCopy
  unfoldable pub deep_copy : Graph V C → Graph V C
  unfolding copy_vertices
  deep_copy old = copy_vertices old empty_graph old.vertices
