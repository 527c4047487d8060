-- ===== src/Graph/Prune/Result.antt =====
-- What is left after `Prune`.
use glasskube.Base.{
  ◌≡◌, refl, sym, ◌∙◌, Bool, true, false, not, ◌&&◌, ◌||◌, ◌⊎◌, inl, inr, some, List, [], ◌∷◌, ◌++◌,
  arith, is_some, Bool-cases, Option-cases,
}
use glasskube.Assoc.{get}
use glasskube.Semver.{Semver}
use glasskube.Graph.Types.{
  PackageRef, VertexRef, ref_key, same_ref, same_ref_iff, Edge, Vertex, Graph,
}
use glasskube.Graph.VertexMap.{vertex_at, write, cleared}
use glasskube.Graph.Lookup.{installed_at, vertex_at-write, dependants-eq-nil}
use glasskube.Graph.Queries.{package_ref, ref_of, dependants}
use glasskube.Graph.WellFormed.{IsWellFormed}
use glasskube.Graph.Consistency.{IsConsistent}
use glasskube.Graph.Prune.{Prunes, start, uninstall, Prunes-IsWellFormed}

-- Is `ref` among the packages of this list?
pub lists : List PackageRef → VertexRef → Bool
lists [] ref = false
lists (p ∷ ps) ref = same_ref (ref_of p.name p.namespace) ref || lists ps ref

lists-snoc :
    (ps : List PackageRef) (p : PackageRef) (ref : VertexRef)
    → lists (ps ++ p ∷ []) ref ≡ (lists ps ref || same_ref (ref_of p.name p.namespace) ref)
unfolding lists
lists-snoc [] p ref = ground arith
lists-snoc (q ∷ ps) p ref = ground (arith, lists-snoc ps p ref)

module _ {V C : Type 0} where
  -- A vertex of `g` that `h` has in the state "not installed".
  pub record IsUninstalled (g h : Graph V C) (ref : VertexRef) : Type 0 where
    pub old : Vertex V C
    pub before : vertex_at g ref ≡ some old
    pub unmanaged : old.manual ≡ false
    pub was_installed : is_some old.version ≡ true
    pub after : vertex_at h ref ≡ some (cleared old)

  -- Every vertex is left alone, or was not manual and is uninstalled.
  pub Prunes-fate :
      {g h : Graph V C} {removed : List PackageRef} (k : VertexRef)
      → Prunes g h removed
      → (vertex_at h k ≡ vertex_at g k) ⊎ IsUninstalled g h k
  Prunes-fate k start = inl refl
  Prunes-fate k (uninstall {h = h} ref v steps found unmanaged installed lonely) =
      elim (Bool-cases (same_ref ref k)) [
        | inl here ↦
            let at_k : vertex_at h k ≡ some v = rw (← (same_ref_iff ref k).0 here) found in
            elim (Prunes-fate k steps) [
              | inl same ↦ inr (record {
                old = v;
                before = sym same ∙ at_k;
                unmanaged = unmanaged;
                was_installed = installed;
                after = ground (arith, vertex_at-write h ref k (cleared v));
              })
              | inr gone ↦ absurd (ground (arith, gone.after))
            ]
        | inr away ↦
            let same' : vertex_at (write h ref (cleared v)) k ≡ vertex_at h k =
              ground (arith, vertex_at-write h ref k (cleared v)) in
            elim (Prunes-fate k steps) [
              | inl same ↦ inl (same' ∙ same)
              | inr gone ↦ inr (record {
                old = gone.old;
                before = gone.before;
                unmanaged = gone.unmanaged;
                was_installed = gone.was_installed;
                after = same' ∙ gone.after;
              })
            ]
      ]

  pub Prunes-removed :
      {g h : Graph V C} {removed : List PackageRef} (k : VertexRef)
      → Prunes g h removed
      → lists removed k ≡ (installed_at g k && not (installed_at h k))
  unfolding lists
  Prunes-removed {g} k start = ground arith
  Prunes-removed {g} k
        (uninstall {h = h} {removed = removed} ref v steps found unmanaged installed lonely) =
      elim (Bool-cases (same_ref ref k)) [
        | inl here ↦
            let at_k : vertex_at h k ≡ some v = rw (← (same_ref_iff ref k).0 here) found in
            ground (
              arith,
              at_k,
              Prunes-fate k steps,
              Prunes-removed k steps,
              lists-snoc removed (package_ref ref v.package_name) k,
              vertex_at-write h ref k (cleared v),
            )
        | inr away ↦ ground (
          arith,
          Prunes-removed k steps,
          lists-snoc removed (package_ref ref v.package_name) k,
          vertex_at-write h ref k (cleared v),
        )
      ]

  edges_of_idle :
      (w : Vertex V C) (dep : VertexRef) (e : Edge C) → w.edges ≡ [] → get w.edges dep ≡ some e → ⊥
  unfolding get
  edges_of_idle w dep e none_there at_dep = ground (arith, none_there)

  -- No edge leads to a vertex without dependants.
  target-ne :
      (h : Graph V C) (ref r dep : VertexRef) (w : Vertex V C) (e : Edge C)
      → IsWellFormed h
      → dependants h ref ≡ []
      → vertex_at h r ≡ some w
      → get w.edges dep ≡ some e
      → same_ref ref e.vertex ≡ false
  target-ne h ref r dep w e wf lonely found at_dep = elim (Bool-cases (same_ref ref e.vertex)) [
    | inr away ↦ away
    | inl here ↦
        let ok_w = wf.at r w found in
        let e_dep : ref ≡ dep = (same_ref_iff ref e.vertex).0 here ∙ ok_w.linked dep e at_dep in
        elim (Option-cases w.version) [
          | inl missing ↦ absurd (edges_of_idle w dep e (ok_w.idle missing) at_dep)
          | inr (version, installed) ↦
              let no_edge = dependants-eq-nil h ref r w lonely found (ground (arith, installed)) in
              cc (rw e_dep at no_edge, at_dep)
        ]
  ]

  uninstall-IsConsistent :
      (lib : Semver V C) (h : Graph V C) (ref : VertexRef) (v : Vertex V C)
      → IsWellFormed h
      → IsConsistent lib h
      → dependants h ref ≡ []
      → IsConsistent lib (write h ref (cleared v))
  unfolding get
  uninstall-IsConsistent lib h ref v wf sound lonely = record {
    met = λ r dep w e at_r at_dep. elim (Bool-cases (same_ref ref r)) [
      | inl here ↦ absurd (ground (arith, vertex_at-write h ref r (cleared v)))
      | inr away ↦
          let found : vertex_at h r ≡ some w =
            ground (arith, vertex_at-write h ref r (cleared v)) in
          let other : same_ref ref e.vertex ≡ false =
            target-ne h ref r dep w e wf lonely found at_dep in
          let same : vertex_at (write h ref (cleared v)) e.vertex ≡ vertex_at h e.vertex =
            ground (arith, vertex_at-write h ref e.vertex (cleared v)) in
          rw same (sound.met r dep w e found at_dep)
    ];
  }

  -- Pruning well-formed graphs keeps every dependency met.
  pub Prunes-IsConsistent :
      (lib : Semver V C) {g h : Graph V C} {removed : List PackageRef}
      → IsWellFormed g
      → IsConsistent lib g
      → Prunes g h removed
      → IsConsistent lib h
  Prunes-IsConsistent lib wf sound start = sound
  Prunes-IsConsistent lib wf sound
        (uninstall {h = h} ref v steps found unmanaged installed lonely) =
      uninstall-IsConsistent lib h ref v (Prunes-IsWellFormed wf steps)
        (Prunes-IsConsistent lib wf sound steps) lonely
