-- ===== src/Graph/Prune/Outcome.antt =====
-- What a caller of DependencyGraph.Prune is promised.
use glasskube.Base.{ℕ, ◌≡◌, sym, ap, ◌∙◌, true, not, ◌&&◌, ◌⊎◌, some, List, arith, is_some}
use mathlib.Core.Path.{subst}
use mathlib.Core.Option.{some-injective}
use glasskube.Assoc.{contains}
use glasskube.Semver.{Semver}
use glasskube.Graph.Types.{PackageRef, VertexRef, ref_key, Graph}
use glasskube.Graph.VertexMap.{vertex_at}
use glasskube.Graph.Lookup.{installed_at}
use glasskube.Graph.WellFormed.{IsWellFormed}
use glasskube.Graph.Consistency.{IsConsistent}
use glasskube.Graph.Changes.{prune}
use glasskube.Graph.Prune.{Prunes, IsKept, Prunes-IsWellFormed}
use glasskube.Graph.Prune.Loop.{prune-Pruned}
use glasskube.Graph.Prune.Result.{
  lists, IsUninstalled, Prunes-fate, Prunes-removed, Prunes-IsConsistent,
}
use glasskube.Graph.Prune.Confluence.{IsSettled, Prunes-confluent}

-- Every round visits every vertex of the graph.
abbrev pub Covers : {V C : Type 0} → (ℕ → List VertexRef) → Graph V C → Type 0
Covers order g =
    (n : ℕ) (ref : VertexRef) → is_some (vertex_at g ref) ≡ true → contains (order n) ref ≡ true

module _ {V C : Type 0} (order : ℕ → List VertexRef) (g : Graph V C) (wf : IsWellFormed g) where
  -- Prune ends on every well-formed graph, whatever the order of the visits: its fuel is enough.
  pub prune_total :
      (h : Graph V C) × (removed : List PackageRef) × (prune order g ≡ some (h, removed))
  prune_total = let p = prune-Pruned order g wf in (p.graph, p.removed, p.returned)

  module _ {h : Graph V C} {removed : List PackageRef}
      (result : prune order g ≡ some (h, removed)) where
    pub prune-Prunes : Prunes g h removed
    prune-Prunes =
        let p = prune-Pruned order g wf in
        let same : ◌≡◌ {A = Graph V C × List PackageRef} (p.graph, p.removed) (h, removed) =
          some-injective _ _ (sym p.returned ∙ result) in
        subst (λ (r : Graph V C × List PackageRef). Prunes g r.0 r.1) same p.steps

    prune-IsSettled : Covers order g → IsSettled h
    prune-IsSettled covers ref = record {
      reason = λ v found unmanaged installed.
          let p = prune-Pruned order g wf in
          let same : p.graph ≡ h =
            ap (λ (r : Graph V C × List PackageRef). r.0)
              (some-injective _ _ (sym p.returned ∙ result)) in
          let known : is_some (vertex_at g ref) ≡ true =
            ground (arith, found, Prunes-fate ref prune-Prunes) in
          (subst (λ (x : Graph V C). IsKept x ref) same
              (p.settled ref (covers p.last ref known))).reason
            v found unmanaged installed;
    }

    -- What Prune returns on a well-formed graph: each vertex is left as it is, or uninstalled, and then
    -- it was not manual, and the list names exactly the packages that were installed before and are
    -- not afterwards.
    pub prune_fate :
        (k : VertexRef)
        → ((vertex_at h k ≡ vertex_at g k) ⊎ IsUninstalled g h k)
          × (lists removed k ≡ (installed_at g k && not (installed_at h k)))
    prune_fate k = (Prunes-fate k prune-Prunes, Prunes-removed k prune-Prunes)

    -- What Prune returns on a graph that is well formed and consistent is well formed and consistent.
    pub prune-IsConsistent :
        (lib : Semver V C) → IsConsistent lib g → IsWellFormed h × IsConsistent lib h
    prune-IsConsistent lib sound =
        (Prunes-IsWellFormed wf prune-Prunes, Prunes-IsConsistent lib wf sound prune-Prunes)

-- Where Prune returns on a well-formed graph of which every round visits all vertices, every package
-- that is then installed and not manual has a dependant.
pub prune_settled :
    {V C : Type 0} (order : ℕ → List VertexRef) (g : Graph V C)
    → IsWellFormed g
    → Covers order g
    → {h : Graph V C} {removed : List PackageRef} → prune order g ≡ some (h, removed)
    → (ref : VertexRef) → IsKept h ref
prune_settled order g wf covers result = prune-IsSettled order g wf result covers

-- Two runs of Prune on a well-formed graph, of which every round visits all vertices, in whatever
-- order, leave every vertex in the same state.
pub prune_confluent :
    {V C : Type 0} (order order' : ℕ → List VertexRef) (g : Graph V C)
    → IsWellFormed g
    → Covers order g
    → Covers order' g
    → {h s : Graph V C} {removed removed' : List PackageRef} → prune order g ≡ some (h, removed)
    → prune order' g ≡ some (s, removed')
    → (k : VertexRef) → vertex_at h k ≡ vertex_at s k
prune_confluent order order' g wf covers covers' result result' k =
    Prunes-confluent k (prune-IsSettled order g wf result covers)
      (prune-IsSettled order' g wf result' covers') (prune-Prunes order g wf result)
      (prune-Prunes order' g wf result')
