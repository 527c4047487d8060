-- ===== src/Graph/Prune/Loop.antt =====
-- The loops of `Prune`: they end, they follow `Prunes`, and they end settled.
use glasskube.Base.{
  ℕ, zero, suc, ◌+◌, ◌≤◌, ◌<◌, ◌≡◌, refl, sym, ◌∙◌, true, Option, some, List, [], ◌∷◌, arith,
  if◌then◌else◌, is_some, Bool-cases, inl, inr,
}
use mathlib.Core.Path.{subst}
use glasskube.Assoc.{get, put, contains}
use glasskube.Graph.Types.{PackageRef, VertexRef, ref_key, same_ref, same_ref_iff, Vertex, Graph}
use glasskube.Graph.VertexMap.{vertex_at, cleared}
use glasskube.Graph.WellFormed.{IsWellFormed}
use glasskube.Graph.Changes.{Pruning, prune_visit, prune_round, prune_from, prune, count_installed}
use glasskube.Graph.Prune.{
  Prunes, start, uninstall, IsKept, Visit, kept, deleted, clear-IsWellFormed, prune_visit-Visit,
}

module _ {V C : Type 0} where
  count-put :
      (m : List (VertexRef × Vertex V C)) (ref : VertexRef) (v : Vertex V C)
      → get m ref ≡ some v
      → is_some v.version ≡ true
      → count_installed (put m ref (cleared v)) + 1 ≡ count_installed m
  unfolding get put count_installed
  count-put [] ref v found installed = cc
  count-put ((r, w) ∷ m) ref v found installed = ground (arith, count-put m ref v)

  -- 0 while nothing was deleted.
  abbrev unstable : Pruning V C → ℕ
  unstable s = if s.stable then 0 else 1

  Visit-count :
      {s : Pruning V C} {ref : VertexRef} {t : Pruning V C}
      → Visit s ref t
      → count_installed t.graph.vertices + unstable t
        ≤ count_installed s.graph.vertices + unstable s
  unfolding vertex_at
  Visit-count (kept k) = omega arith
  Visit-count {s} {ref = ref} (deleted v found unmanaged installed lonely) =
      ground (arith, count-put s.graph.vertices ref v found installed)

  Visit-IsWellFormed :
      {s : Pruning V C} {ref : VertexRef} {t : Pruning V C}
      → IsWellFormed s.graph
      → Visit s ref t
      → IsWellFormed t.graph
  Visit-IsWellFormed wf (kept k) = wf
  Visit-IsWellFormed {s} {ref = ref} wf (deleted v found unmanaged installed lonely) =
      clear-IsWellFormed s.graph ref v wf

  Visit-Prunes :
      {g : Graph V C} {s : Pruning V C} {ref : VertexRef} {t : Pruning V C}
      → Prunes g s.graph s.removed
      → Visit s ref t
      → Prunes g t.graph t.removed
  Visit-Prunes steps (kept k) = steps
  Visit-Prunes {ref = ref} steps (deleted v found unmanaged installed lonely) =
      uninstall ref v steps found unmanaged installed lonely

  Visit-stable :
      {s : Pruning V C} {ref : VertexRef} {t : Pruning V C}
      → Visit s ref t
      → t.stable ≡ true
      → (t ≡ s) × IsKept s.graph ref
  Visit-stable (kept k) h = (refl, k)
  Visit-stable (deleted v found unmanaged installed lonely) h = cc

  -- What one `range` over the vertices does.
  record Round (g : Graph V C) (refs : List VertexRef) (s t : Pruning V C) : Type 0 where
    well_formed : IsWellFormed t.graph
    steps : Prunes g s.graph s.removed → Prunes g t.graph t.removed
    fewer :
        count_installed t.graph.vertices + unstable t
        ≤ count_installed s.graph.vertices + unstable s
    settled :
        t.stable ≡ true
        → (t ≡ s) × ((ref : VertexRef) → contains refs ref ≡ true → IsKept s.graph ref)

  settled_cons :
      (refs : List VertexRef) (r : VertexRef) {s t u : Pruning V C}
      → Visit s r t
      → (u ≡ t) × ((ref : VertexRef) → contains refs ref ≡ true → IsKept t.graph ref)
      → u.stable ≡ true
      → (u ≡ s) × ((ref : VertexRef) → contains (r ∷ refs) ref ≡ true → IsKept s.graph ref)
  unfolding contains
  settled_cons refs r {s} {t} {u} visit rest stable =
      let (same_state, here) = Visit-stable visit (rw rest.0 at stable) in
      (
        rest.0 ∙ same_state,
        λ ref visited. elim (Bool-cases (same_ref r ref)) [
          | inl e ↦ rw (← (same_ref_iff r ref).0 e) here
          | inr e ↦ rw same_state at (rest.1 ref (ground arith))
        ],
      )

  prune_round-Round :
      (g : Graph V C) (refs : List VertexRef) (s : Pruning V C)
      → IsWellFormed s.graph
      → Round g refs s (prune_round s refs)
  unfolding prune_round contains
  prune_round-Round g [] s wf = record {
    well_formed = wf;
    steps = λ p. p;
    fewer = omega arith;
    settled = λ h. (refl, λ ref visited. cc);
  }
  prune_round-Round g (r ∷ refs) s wf =
      let visit = prune_visit-Visit s r wf in
      let rest = prune_round-Round g refs (prune_visit s r) (Visit-IsWellFormed wf visit) in
      record {
        well_formed = rest.well_formed;
        steps = λ p. rest.steps (Visit-Prunes p visit);
        fewer = omega (arith, rest.fewer, Visit-count visit);
        settled = λ h. settled_cons refs r visit (rest.settled h) h;
      }

  -- The result of the outer loop that began with the graph `g`.
  pub record Pruned (order : ℕ → List VertexRef) (g : Graph V C)
      (result : Option (Graph V C × List PackageRef)) : Type 0 where
    pub graph : Graph V C
    pub removed : List PackageRef
    pub returned : result ≡ some (graph, removed)
    pub steps : Prunes g graph removed
    pub last : ℕ
    pub settled : (ref : VertexRef) → contains (order last) ref ≡ true → IsKept graph ref

  prune_from-Pruned :
      (fuel : ℕ) (order : ℕ → List VertexRef) (n : ℕ) (g h : Graph V C) (removed : List PackageRef)
      → count_installed h.vertices < fuel
      → IsWellFormed h
      → Prunes g h removed
      → Pruned order g (prune_from fuel order n h removed)
  unfolding prune_from
  prune_from-Pruned zero order n g h removed enough wf steps = absurd (omega arith)
  prune_from-Pruned (suc fuel) order n g h removed enough wf steps =
      let s : Pruning V C = record { graph = h; removed = removed; stable = true } in
      let t : Pruning V C = prune_round s (order n) in
      let round = prune_round-Round g (order n) s wf in
      elim (Bool-cases t.stable) [
        | inl stable ↦ record {
          graph = t.graph;
          removed = t.removed;
          returned = rw stable refl;
          steps = round.steps steps;
          last = n;
          settled = λ ref visited.
              subst (λ (x : Pruning V C). IsKept x.graph ref) (sym (round.settled stable).0)
                ((round.settled stable).1 ref visited);
        }
        | inr changed ↦ rw changed (
            prune_from-Pruned fuel order (suc n) g t.graph t.removed (ground (arith, round.fewer))
              round.well_formed (round.steps steps))
      ]

  -- Prune returns, whatever the order of the visits, and its result is that of steps of `Prunes`.
  pub prune-Pruned :
      (order : ℕ → List VertexRef) (g : Graph V C) → IsWellFormed g → Pruned order g (prune order g)
  unfolding prune
  prune-Pruned order g wf =
      prune_from-Pruned (suc (count_installed g.vertices)) order 0 g g [] (omega arith) wf start
