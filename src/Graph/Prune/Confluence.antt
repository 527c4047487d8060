-- ===== src/Graph/Prune/Confluence.antt =====
-- The result of `Prune` does not depend on the order in which the runtime visits the vertices.
use glasskube.Base.{◌≡◌, sym, ◌∙◌, true, inl, inr, some, List, arith, Bool-cases}
use glasskube.Graph.Types.{PackageRef, VertexRef, ref_key, same_ref, same_ref_iff, Graph}
use glasskube.Graph.VertexMap.{vertex_at, cleared}
use glasskube.Graph.Lookup.{installed_at, vertex_at-write, dependants-eq-nil, dependants-nil}
use glasskube.Graph.Prune.{Prunes, start, uninstall, IsKept}
use glasskube.Graph.Prune.Result.{Prunes-fate}

module _ {V C : Type 0} where
  -- Nothing that is left is due.
  abbrev pub IsSettled : Graph V C → Type 0
  IsSettled h = (ref : VertexRef) → IsKept h ref

  -- What is installed after pruning is as it was before.
  installed_same :
      {g h : Graph V C} {removed : List PackageRef} (k : VertexRef)
      → Prunes g h removed
      → installed_at h k ≡ true
      → vertex_at h k ≡ vertex_at g k
  installed_same {h = h} k steps installed = elim (Prunes-fate k steps) [
    | inl same ↦ same
    | inr gone ↦ absurd (ground (arith, gone.after))
  ]

  -- What one run of steps uninstalls, every settled run uninstalls.
  Prunes-le :
      {g h s : Graph V C} {removed removed' : List PackageRef} (k : VertexRef)
      → IsSettled s
      → Prunes g s removed'
      → Prunes g h removed
      → installed_at s k ≡ true
      → installed_at h k ≡ true
  Prunes-le {g} k settled to_s start installed = rw (← installed_same k to_s installed) installed
  Prunes-le {g} {s = s} k settled to_s
        (uninstall {h = h} ref v steps found unmanaged was_installed lonely) installed =
      elim (Bool-cases (same_ref ref k)) [
        | inr away ↦
            let before = Prunes-le k settled to_s steps installed in
            ground (arith, vertex_at-write h ref k (cleared v))
        | inl here ↦
            let e : ref ≡ k = (same_ref_iff ref k).0 here in
            let in_h : vertex_at h k ≡ some v = rw (← e) found in
            let same : vertex_at s k ≡ some v =
              installed_same k to_s installed
              ∙ sym (installed_same k steps (ground (arith, in_h)))
              ∙ in_h in
            absurd (
              (settled k).reason v same unmanaged was_installed (
                dependants-nil s k λ r w at_r r_installed.
                  let r_in_h = Prunes-le r settled to_s steps (ground (arith, at_r)) in
                  let at_h : vertex_at h r ≡ some w =
                    installed_same r steps r_in_h
                    ∙ sym (installed_same r to_s (ground (arith, at_r)))
                    ∙ at_r in
                  rw e at (dependants-eq-nil h ref r w lonely at_h r_installed)))
      ]

  -- Two settled results of pruning the same graph are the same map.
  pub Prunes-confluent :
      {g h s : Graph V C} {removed removed' : List PackageRef} (k : VertexRef)
      → IsSettled h
      → IsSettled s
      → Prunes g h removed
      → Prunes g s removed'
      → vertex_at h k ≡ vertex_at s k
  Prunes-confluent {g} {h} {s} k settled_h settled_s to_h to_s = elim (Prunes-fate k to_h) [
    | inl same_h ↦ elim (Prunes-fate k to_s) [
      | inl same_s ↦ same_h ∙ sym same_s
      | inr gone_s ↦ absurd (
          ground (
            arith,
            gone_s.before,
            gone_s.after,
            gone_s.was_installed,
            same_h,
            Prunes-le k settled_s to_s to_h,
            Prunes-le k settled_h to_h to_s,
          ))
    ]
    | inr gone_h ↦ elim (Prunes-fate k to_s) [
      | inl same_s ↦ absurd (
          ground (
            arith,
            gone_h.before,
            gone_h.after,
            gone_h.was_installed,
            same_s,
            Prunes-le k settled_h to_h to_s,
            Prunes-le k settled_s to_s to_h,
          ))
      | inr gone_s ↦ ground (arith, gone_h.before, gone_s.before, gone_h.after, gone_s.after)
    ]
  ]
