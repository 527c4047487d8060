-- ===== src/Graph/Max.antt =====
-- DependencyGraph.Max finds the highest version that no dependant forbids.
use glasskube.Base.{
  ◌≡◌, ◌≢◌, refl, ap, true, false, ◌&&◌, ◌⊎◌, inl, inr, ◌↔◌, Option, none, some, List, [], ◌∷◌,
  ◌++◌, arith, Bool-cases, Option-cases, is_some, is_empty_iff, All, IsIn, here, there,
}
use mathlib.Core.Option.{some-injective}
use glasskube.Assoc.{get, keys, collect, contains}
use glasskube.Semver.{Semver, IsLawful, is_version_upgradable, validate_version_constraint}
use glasskube.Semver.Order.{
  IsNumeric, is_version_upgradable_asymm, is_version_upgradable_negative_trans,
}
use glasskube.Graph.Types.{VertexRef, ref_key, same_ref_iff, Edge, Vertex, Graph}
use glasskube.Graph.VertexMap.{vertex_at}
use glasskube.Graph.Lookup.{contains_of_vertex_at}
use glasskube.Graph.Queries.{constraints, constraints_at, allowed, better, max_from, max}
use glasskube.Graph.Consistency.{IsMet}

module _ {V C : Type 0} (lib : Semver V C) (law : IsLawful lib) (cs : List C) where
  not_upgradable_self : (v : V) → IsNumeric lib v → is_version_upgradable lib v v ≡ false
  not_upgradable_self v n = ground (arith, is_version_upgradable_asymm lib law v v n n)

  -- `max_version` never gets worse.
  max_from-some :
      (m r : V) (vs : List V)
      → IsNumeric lib m
      → All (IsNumeric lib) vs
      → max_from lib cs (some m) vs ≡ some r
      → IsNumeric lib r × (is_version_upgradable lib r m ≡ false)
  unfolding max_from
  max_from-some m r [] nm ns e =
      let same : m ≡ r = ground arith in rw (← same) (nm, not_upgradable_self m nm)
  max_from-some m r (v ∷ vs) nm ns e =
      elim (Bool-cases (is_version_upgradable lib m v && allowed lib cs v)) [
        | inr no_change ↦ max_from-some m r vs nm ns.1 (rw no_change at e)
        | inl change ↦
            let (nr, above) = max_from-some v r vs ns.0 ns.1 (rw change at e) in
            (
              nr,
              is_version_upgradable_negative_trans lib law m v r nm ns.0 nr
                  (is_version_upgradable_asymm lib law m v nm ns.0 (ground arith)) above,
            )
      ]

  max_from-allowed :
      (m : Option V) (r : V) (vs : List V)
      → ((v : V) → m ≡ some v → allowed lib cs v ≡ true)
      → max_from lib cs m vs ≡ some r
      → allowed lib cs r ≡ true
  unfolding max_from
  max_from-allowed m r [] start e = start r e
  max_from-allowed m r (v ∷ vs) start e = elim (Bool-cases (better lib m v && allowed lib cs v)) [
    | inr no_change ↦ max_from-allowed m r vs start (rw no_change at e)
    | inl change ↦ max_from-allowed (some v) r vs (λ w h. ground arith) (rw change at e)
  ]

  max_from-IsIn :
      (m : Option V) (r : V) (vs : List V)
      → max_from lib cs m vs ≡ some r
      → (m ≡ some r) ⊎ IsIn r vs
  unfolding max_from
  max_from-IsIn m r [] e = inl e
  max_from-IsIn m r (v ∷ vs) e = elim (Bool-cases (better lib m v && allowed lib cs v)) [
    | inr no_change ↦ elim (max_from-IsIn m r vs (rw no_change at e)) [
      | inl same ↦ inl same
      | inr later ↦ inr (there later)
    ]
    | inl change ↦ elim (max_from-IsIn (some v) r vs (rw change at e)) [
      | inl same ↦ inr (here (some-injective _ _ same))
      | inr later ↦ inr (there later)
    ]
  ]

  -- What `max_version` holds is a number-tagged version.
  abbrev StartNumeric : Option V → Type 0
  StartNumeric none = Unit
  StartNumeric (some v) = IsNumeric lib v

  -- An allowed version that `max_version` was kept over is no upgrade of the result.
  passed_over :
      (m : Option V) (r x : V) (vs : List V)
      → StartNumeric m
      → IsNumeric lib x
      → All (IsNumeric lib) vs
      → max_from lib cs m vs ≡ some r
      → (better lib m x && true) ≡ false
      → is_version_upgradable lib r x ≡ false
  passed_over none r x vs nm nx ns e worse = cc
  passed_over (some m) r x vs nm nx ns e worse =
      let (nr, above) = max_from-some m r vs nm ns e in
      is_version_upgradable_negative_trans lib law x m r nx nm nr (ground arith) above

  -- No allowed version of the list is an upgrade of the result.
  max_from_best :
      (v : V) (m : Option V) (r : V) {vs : List V}
      → StartNumeric m
      → All (IsNumeric lib) vs
      → max_from lib cs m vs ≡ some r
      → IsIn v vs
      → allowed lib cs v ≡ true
      → is_version_upgradable lib r v ≡ false
  unfolding max_from
  max_from_best v m r nm ns e (there {y = x} {ys = vs} later) ok_v =
      elim (Bool-cases (better lib m x && allowed lib cs x)) [
        | inr no_change ↦ max_from_best v m r nm ns.1 (rw no_change at e) later ok_v
        | inl change ↦ max_from_best v (some x) r ns.0 ns.1 (rw change at e) later ok_v
      ]
  max_from_best v m r nm ns e (here {y = x} {ys = vs} same) ok_v =
      elim (Bool-cases (better lib m x && allowed lib cs x)) [
        | inl change ↦ rw (← same) ((max_from-some x r vs ns.0 ns.1 (rw change at e)).1)
        | inr no_change ↦ rw (← same) (
            passed_over m r x vs nm ns.0 ns.1 (rw no_change at e)
              (rw (rw (← same) at ok_v) at no_change))
      ]

module _ {V C : Type 0} (lib : Semver V C) where
  -- Every installed dependant of `of` allows the version.
  pub record IsAllowed (g : Graph V C) (of : VertexRef) (version : V) : Type 0 where
    pub by_dependant :
        (r : VertexRef) (w : Vertex V C) (e : Edge C)
        → vertex_at g r ≡ some w
        → is_some w.version ≡ true
        → get w.edges of ≡ some e
        → IsMet lib (some version) e.constraint

  allowed-append :
      (cs ds : List C) (v : V) → allowed lib (cs ++ ds) v ≡ (allowed lib cs v && allowed lib ds v)
  unfolding allowed
  allowed-append [] ds v = refl
  allowed-append (c ∷ cs) ds v = ground (arith, allowed-append cs ds v)

  allowed-collect :
      (f : VertexRef → List C) (ks : List VertexRef) (k : VertexRef) (v : V)
      → allowed lib (collect f ks) v ≡ true
      → contains ks k ≡ true
      → allowed lib (f k) v ≡ true
  unfolding collect contains
  allowed-collect f [] k v h visited = cc
  allowed-collect f (j ∷ ks) k v h visited = ground (
    arith,
    allowed-append (f j) (collect f ks) v,
    allowed-collect f ks k v,
    same_ref_iff j k,
    λ (p : j ≡ k). ap (λ (x : VertexRef). allowed lib (f x) v) p,
  )

  collect-allowed :
      (f : VertexRef → List C) (ks : List VertexRef) (v : V)
      → ((k : VertexRef) → allowed lib (f k) v ≡ true)
      → allowed lib (collect f ks) v ≡ true
  unfolding collect allowed
  collect-allowed f [] v h = refl
  collect-allowed f (j ∷ ks) v h =
      ground (arith, allowed-append (f j) (collect f ks) v, collect-allowed f ks v h, h j)

  IsMet-of_allowed :
      (of : VertexRef) (w : Vertex V C) (e : Edge C) (v : V)
      → is_some w.version ≡ true
      → get w.edges of ≡ some e
      → allowed lib (constraints_at of (some w)) v ≡ true
      → IsMet lib (some v) e.constraint
  unfolding constraints_at allowed validate_version_constraint
  IsMet-of_allowed of w e v installed at_of h = elim (Option-cases e.constraint) [
    | inl free ↦ rw free tt
    | inr (c, bound) ↦
        rw bound (
          (is_empty_iff (lib.violations c v)).0 (ground (arith, rw (at_of, bound, installed) at h)))
  ]

  allowed_of_met :
      (of : VertexRef) (o : Option (Vertex V C)) (v : V)
      → ((w : Vertex V C) (e : Edge C)
          → o ≡ some w
          → is_some w.version ≡ true
          → get w.edges of ≡ some e
          → IsMet lib (some v) e.constraint)
      → allowed lib (constraints_at of o) v ≡ true
  unfolding constraints_at allowed validate_version_constraint
  allowed_of_met of none v h = refl
  allowed_of_met of (some w) v h = elim (Option-cases (get w.edges of)) [
    | inl free ↦ rw free refl
    | inr (e, at_of) ↦ elim (Option-cases e.constraint) [
      | inl free ↦ rw (at_of, free) refl
      | inr (c, bound) ↦ elim (Bool-cases (is_some w.version)) [
        | inr missing ↦ rw (at_of, bound) (rw missing refl)
        | inl installed ↦
            rw (at_of, bound)
              (rw installed (
                rw
                  ((is_empty_iff (lib.violations c v)).1 (rw bound at (h w e refl installed at_of)))
                  refl))
      ]
    ]
  ]

  -- The test of `Max` decides whether every installed dependant allows the version.
  allowed_iff :
      (g : Graph V C) (of : VertexRef) (v : V)
      → (allowed lib (constraints g of) v ≡ true) ↔ IsAllowed g of v
  unfolding constraints
  allowed_iff g of v = (
    λ h. record {
      by_dependant = λ r w e found installed at_of. IsMet-of_allowed of w e v installed at_of (
          rw found at (
            allowed-collect (λ ref. constraints_at of (vertex_at g ref)) (keys g.vertices) r v h
              (contains_of_vertex_at g r found)));
    },
    λ h.
        collect-allowed _ (keys g.vertices) v
          (λ r. allowed_of_met of (vertex_at g r) v (λ w e found. h.by_dependant r w e found)),
  )

  -- If the library is lawful and the metadata of the versions are numbers or empty, what `Max`
  -- returns is a version of the list that all installed dependants allow, and of those versions none
  -- is an upgrade of it.
  pub max-best :
      IsLawful lib
      → (g : Graph V C) (of : VertexRef) (versions : List V) (r : V) → All (IsNumeric lib) versions
      → max lib g of versions ≡ some r
      → IsIn r versions
        × IsAllowed g of r
        × ((v : V) → IsIn v versions → IsAllowed g of v → is_version_upgradable lib r v ≡ false)
  unfolding max
  max-best law g of versions r numeric e = (
    elim (max_from-IsIn lib law (constraints g of) none r versions e) [ inl h ↦ cc | inr h ↦ h ],
    (allowed_iff g of r).0
        (max_from-allowed lib law (constraints g of) none r versions (λ v h. cc) e),
    λ v m ok_v.
        max_from_best lib law (constraints g of) v none r tt numeric e m
          ((allowed_iff g of v).1 ok_v),
  )

  max_from-ne-none : (cs : List C) (m : V) (vs : List V) → max_from lib cs (some m) vs ≢ none
  unfolding max_from
  max_from-ne-none cs m [] e = cc
  max_from-ne-none cs m (v ∷ vs) e =
      elim (Bool-cases (is_version_upgradable lib m v && allowed lib cs v)) [
        | inl change ↦ max_from-ne-none cs v vs (rw change at e)
        | inr no_change ↦ max_from-ne-none cs m vs (rw no_change at e)
      ]

  max_from-eq-none :
      (cs : List C) (v : V) {vs : List V}
      → max_from lib cs none vs ≡ none
      → IsIn v vs
      → allowed lib cs v ≡ false
  unfolding max_from
  max_from-eq-none cs v e (here {y = x} {ys = vs} same) = elim (Bool-cases (allowed lib cs x)) [
    | inl change ↦ absurd (max_from-ne-none cs x vs (rw change at e))
    | inr forbidden ↦ rw (← same) forbidden
  ]
  max_from-eq-none cs v e (there {y = x} {ys = vs} later) = elim (Bool-cases (allowed lib cs x)) [
    | inl change ↦ absurd (max_from-ne-none cs x vs (rw change at e))
    | inr forbidden ↦ max_from-eq-none cs v (rw forbidden at e) later
  ]

  -- `Max` fails only where every version of the list is forbidden by an installed dependant.
  pub max-none :
      (g : Graph V C) (of : VertexRef) (versions : List V) (v : V)
      → max lib g of versions ≡ none
      → IsIn v versions
      → ¬ (IsAllowed g of v)
  unfolding max
  max-none g of versions v e m ok_v =
      ground (arith, (allowed_iff g of v).1 ok_v, max_from-eq-none (constraints g of) v e m)
