-- ===== src/Graph/Prune.antt =====
-- What `Prune` does to a graph, as a relation between graphs, and that the code's loops follow it.
pub mod Loop
pub mod Result
pub mod Confluence
pub mod Outcome
use glasskube.Base.{
  ℕ, ◌≡◌, ◌≢◌, refl, Bool, true, false, not, ◌&&◌, Option, none, some, List, [], ◌∷◌, ◌++◌, arith,
  is_some, is_empty, is_empty_iff, Option-cases, Bool-cases, inl, inr,
}
use glasskube.Assoc.{put-get_self}
use glasskube.Graph.Types.{PackageRef, VertexRef, ref_key, Vertex, Graph}
use glasskube.Graph.VertexMap.{vertex_at, write, cleared, delete_vertex}
use glasskube.Graph.WellFormed.{IsVertexOf, IsWellFormed, IsVertexOf-no_edges, write-IsWellFormed}
use glasskube.Graph.Lookup.{modify-eq-write}
use glasskube.Graph.Queries.{package_ref, dependants}
use glasskube.Graph.Changes.{Pruning, prune_visit}

-- `g` becomes `h` by uninstalling vertices, one at a time, of which each was not installed manually
-- and had no dependants when it was uninstalled. The list holds them, in that order.
pub data Prunes {V C : Type 0} (g : Graph V C) : Graph V C → List PackageRef → Type 0 where
  start : Prunes g g []
  uninstall :
      {h : Graph V C} {removed : List PackageRef} (ref : VertexRef) (v : Vertex V C)
      → Prunes g h removed
      → vertex_at h ref ≡ some v
      → v.manual ≡ false
      → is_some v.version ≡ true
      → dependants h ref ≡ []
      → Prunes g (write h ref (cleared v)) (removed ++ package_ref ref v.package_name ∷ [])

-- The vertex at `ref` stays: it is not installed, or manual, or has a dependant.
pub record IsKept {V C : Type 0} (g : Graph V C) (ref : VertexRef) : Type 0 where
  pub reason :
      (v : Vertex V C)
      → vertex_at g ref ≡ some v
      → v.manual ≡ false
      → is_some v.version ≡ true
      → dependants g ref ≢ []

-- What a visit of `ref` makes of the state `s`.
pub data Visit {V C : Type 0} (s : Pruning V C) (ref : VertexRef) : Pruning V C → Type 0 where
  kept : IsKept s.graph ref → Visit s ref s
  deleted :
      (v : Vertex V C)
      → vertex_at s.graph ref ≡ some v
      → v.manual ≡ false
      → is_some v.version ≡ true
      → dependants s.graph ref ≡ []
      → Visit s ref (record {
        graph = write s.graph ref (cleared v);
        removed = s.removed ++ package_ref ref v.package_name ∷ [];
        stable = false;
      })

module _ {V C : Type 0} where
  pub clear-IsWellFormed :
      (g : Graph V C) (ref : VertexRef) (v : Vertex V C)
      → IsWellFormed g
      → IsWellFormed (write g ref (cleared v))
  clear-IsWellFormed g ref v wf =
      write-IsWellFormed g ref (cleared v) wf (IsVertexOf-no_edges _ _ refl)

  pub Prunes-IsWellFormed :
      {g h : Graph V C} {removed : List PackageRef}
      → IsWellFormed g
      → Prunes g h removed
      → IsWellFormed h
  Prunes-IsWellFormed wf start = wf
  Prunes-IsWellFormed wf (uninstall {h = h} ref v steps found unmanaged installed lonely) =
      clear-IsWellFormed h ref v (Prunes-IsWellFormed wf steps)

  -- To clear a vertex that is not installed changes nothing.
  clear_idle :
      (g : Graph V C) (ref : VertexRef) (v : Vertex V C)
      → IsWellFormed g
      → vertex_at g ref ≡ some v
      → v.manual ≡ false
      → is_some v.version ≡ false
      → write g ref (cleared v) ≡ g
  unfolding vertex_at
  clear_idle g ref v wf found unmanaged missing =
      let no_version : v.version ≡ none = ground arith in
      let same : cleared v ≡ v = ground (arith, (wf.at ref v found).idle no_version) in
      rw same (λ i. record { vertices = put-get_self g.vertices ref v found i })

  Visit-due :
      (s : Pruning V C) (ref : VertexRef) (v : Vertex V C)
      → IsWellFormed s.graph
      → vertex_at s.graph ref ≡ some v
      → (not v.manual && is_empty (dependants s.graph ref)) ≡ true
      → Visit s ref (prune_visit s ref)
  unfolding prune_visit
  Visit-due s ref v wf found due =
      let unmanaged : v.manual ≡ false = ground arith in
      let lonely : dependants s.graph ref ≡ [] =
        ground (arith, is_empty_iff (dependants s.graph ref)) in
      elim (Bool-cases (is_some v.version)) [
        | inl installed ↦
            rw (found, prune_visit)
              (rw due (
                rw (modify-eq-write s.graph ref cleared v found)
                  (rw found (rw installed (deleted v found unmanaged installed lonely)))))
        | inr missing ↦
            rw (found, prune_visit)
              (rw due (
                rw (modify-eq-write s.graph ref cleared v found) (
                  rw found (
                    rw missing (
                      rw (clear_idle s.graph ref v wf found unmanaged missing)
                        (kept (record { reason = λ w e p q. ground arith })))))))
      ]

  -- A visit of a well-formed graph deletes a vertex that is due, or changes nothing.
  pub prune_visit-Visit :
      (s : Pruning V C) (ref : VertexRef) → IsWellFormed s.graph → Visit s ref (prune_visit s ref)
  unfolding prune_visit
  prune_visit-Visit s ref wf = elim (Option-cases (vertex_at s.graph ref)) [
    | inl absent ↦ rw (absent, prune_visit) (kept (record { reason = λ w e p q. ground arith }))
    | inr (v, found) ↦ elim (Bool-cases (not v.manual && is_empty (dependants s.graph ref))) [
      | inl due ↦ Visit-due s ref v wf found due
      | inr not_due ↦
          rw (found, prune_visit)
            (rw not_due (
              kept (record {
                reason = λ w e p q n. ground (arith, is_empty_iff (dependants s.graph ref));
              })))
    ]
  ]
