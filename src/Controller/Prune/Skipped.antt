-- ===== src/Controller/Prune/Skipped.antt =====
-- What pruneOwnedResources passes over: its loop ranges over the array from which it removes.
use glasskube.Base.{
  ℕ, zero, suc, ◌≤◌, String, ◌≡◌, refl, sym, ap, ◌∙◌, true, false, some, List, ◌∷◌, arith, length,
  eq_iff, IsIn, here, there, Bool-cases, inl, inr, All, All-IsIn,
}
use glasskube.Owners.OwnedResources.{OwnedResourceRef, refers_to_same_resource}
use glasskube.Controller.Slices.{
  Slice, take, get_elem?, shift, remove_at, remove_in_place, IsIn-remove_at, IsIn-get_elem?,
  IsIn-shift, range_from, range_from_inv, range_from-step,
}
use glasskube.Controller.Types.{
  Reply, found, not_found, get_failed, DeleteReply, deleted, nothing_to_delete, delete_failed, Api,
  Context, is_managed,
}
use glasskube.Controller.Prune.{
  PruneState, array_of, is_current, start_of, forget, after_delete, prune_stale, prune_resource,
  pruned_resources, prune_owned_resources,
}

remove_at_behind :
    (xs : List OwnedResourceRef) (m : ℕ) (b : OwnedResourceRef) (tail : List OwnedResourceRef)
    (n : ℕ) (ref : OwnedResourceRef)
    → xs ≡ b ∷ tail
    → m ≡ suc n
    → refers_to_same_resource b ref ≡ false
    → ((remove_at xs m ref).0.array ≡ b ∷ (remove_at tail n ref).0.array)
      × ((remove_at xs m ref).0.len ≡ suc (remove_at tail n ref).0.len)
unfolding remove_at
remove_at_behind xs m b tail n ref p q other = rw p (rw q (rw other (refl, refl)))

module _ {W S : Type 0} (api : Api W S) (b : OwnedResourceRef) where
  -- The array starts with `b`, which the slice has, and has it nowhere else.
  record Skips (s : PruneState W) : Type 0 where
    pub tail : List OwnedResourceRef
    pub rest : ℕ
    pub array_is : s.slice.array ≡ b ∷ tail
    pub len_is : s.slice.len ≡ suc rest
    pub away : (x : OwnedResourceRef) → IsIn x tail → refers_to_same_resource b x ≡ false

  forget-Skips :
      (ref : OwnedResourceRef) (s : PruneState W)
      → refers_to_same_resource b ref ≡ false
      → Skips s
      → Skips (forget ref s)
  unfolding forget remove_in_place
  forget-Skips ref s other v =
      let (array_is, len_is) =
        remove_at_behind s.slice.array s.slice.len b v.tail v.rest ref v.array_is v.len_is other in
      record {
        tail = (remove_at v.tail v.rest ref).0.array;
        rest = (remove_at v.tail v.rest ref).0.len;
        array_is = array_is;
        len_is = len_is;
        away = λ x m. v.away x (IsIn-remove_at v.tail v.rest ref x m);
      }

  Skips-of : {s t : PruneState W} → t.slice ≡ s.slice → Skips s → Skips t
  Skips-of e v = record {
    tail = v.tail;
    rest = v.rest;
    array_is = ap (λ (x : Slice). x.array) e ∙ v.array_is;
    len_is = ap (λ (x : Slice). x.len) e ∙ v.len_is;
    away = v.away;
  }

  after_delete-Skips :
      (ref : OwnedResourceRef) (reply : W × DeleteReply) (s : PruneState W)
      → refers_to_same_resource b ref ≡ false
      → Skips s
      → Skips (after_delete api (forget ref) reply s)
  after_delete-Skips ref (u, deleted) s other v =
      forget-Skips ref (record s { world = u }) other (Skips-of refl v)
  after_delete-Skips ref (u, nothing_to_delete) s other v =
      forget-Skips ref (record s { world = u }) other (Skips-of refl v)
  after_delete-Skips ref (u, delete_failed e) s other v = Skips-of refl v

  prune_stale-Skips :
      (ref : OwnedResourceRef) (s : PruneState W)
      → refers_to_same_resource b ref ≡ false
      → Skips s
      → Skips (prune_stale api ref s)
  unfolding prune_stale
  prune_stale-Skips ref s other v = by_reply (api.get_resource s.world ref) refl
    where
      by_reply :
          (reply : Reply (List (String × String)))
          → api.get_resource s.world ref ≡ reply
          → Skips (prune_stale api ref s)
      by_reply not_found e = rw (e, prune_stale) v
      by_reply (get_failed m) e = rw (e, prune_stale) (Skips-of refl v)
      by_reply (found labels) e = elim (Bool-cases (is_managed labels)) [
        | inr unmanaged ↦ rw (e, prune_stale) (rw unmanaged (forget-Skips ref s other v))
        | inl managed ↦
            rw (e, prune_stale)
              (rw managed (after_delete-Skips ref (api.delete s.world ref) s other v))
      ]

  prune_resource-Skips :
      (current : List OwnedResourceRef) (ref : OwnedResourceRef) (j : ℕ) (s : PruneState W)
      → 1 ≤ j
      → get_elem? (array_of s) j ≡ some ref
      → Skips s
      → Skips (prune_resource api current ref s).0
  unfolding prune_resource
  prune_resource-Skips current ref zero s at_least there_is v = absurd (omega arith)
  prune_resource-Skips current ref (suc j) s at_least there_is v =
      let other = v.away ref (
        IsIn-get_elem? v.tail j ref (
          sym (ap (λ (xs : List OwnedResourceRef). get_elem? xs (suc j)) v.array_is) ∙ there_is)) in
      elim (Bool-cases (is_current current ref)) [
        | inl is_kept ↦ rw is_kept v
        | inr stale ↦ rw stale (prune_stale-Skips ref s other v)
      ]

-- A stale and managed resource whose deletion succeeds, as the first round finds it.
pub record IsPruned {W S : Type 0} (api : Api W S) (c : Context W S) (a : OwnedResourceRef)
    : Type 0 where
  pub stale : is_current c.current_owned_resources a ≡ false
  pub labels : List (String × String)
  pub exists : api.get_resource c.world a ≡ found labels
  pub managed : is_managed labels ≡ true
  pub after : W
  pub is_deleted : api.delete c.world a ≡ (after, deleted)

same_self : (a : OwnedResourceRef) → refers_to_same_resource a a ≡ true
unfolding refers_to_same_resource
same_self a = ground (
  arith,
  eq_iff a.group a.group,
  eq_iff a.version a.version,
  eq_iff a.kind a.kind,
  eq_iff a.name a.name,
  eq_iff a.namespace a.namespace,
)

IsIn-first :
    (xs : List OwnedResourceRef) (m : ℕ) (b : OwnedResourceRef) (tail : List OwnedResourceRef)
    (n : ℕ)
    → xs ≡ b ∷ tail
    → m ≡ suc n
    → IsIn b (take m xs)
IsIn-first xs m b tail n p q = rw p (rw q (here refl))

module _ {W S : Type 0} (api : Api W S) (c : Context W S) (a b x : OwnedResourceRef)
    (xs : List OwnedResourceRef)
    (distinct : All (λ (y : OwnedResourceRef). refers_to_same_resource b y ≡ false) (x ∷ xs))
    (pruned : IsPruned api c a) where
  abbrev at_start : PruneState W
  at_start = start_of c.world (a ∷ b ∷ x ∷ xs)

  abbrev after_first : PruneState W
  after_first = forget a (record at_start { world = pruned.after })

  first_round : prune_resource api c.current_owned_resources a at_start ≡ (after_first, false)
  unfolding prune_resource prune_stale
  first_round =
      rw (pruned.stale, prune_resource)
        (rw (pruned.exists, prune_stale) (rw pruned.managed (rw pruned.is_deleted refl)))

  first-Skips : Skips api b after_first
  unfolding forget remove_in_place remove_at shift
  first-Skips = record {
    tail = x ∷ shift (length xs) (x ∷ xs);
    rest = suc (length xs);
    array_is = rw (same_self a) refl;
    len_is = rw (same_self a) refl;
    away = λ y m. All-IsIn _ distinct (in_rest y m);
  }
    where
      in_rest : (y : OwnedResourceRef) → IsIn y (x ∷ shift (length xs) (x ∷ xs)) → IsIn y (x ∷ xs)
      in_rest y (here e) = here e
      in_rest y (there m) = IsIn-shift (length xs) (x ∷ xs) y m

  last-Skips : Skips api b (
      range_from array_of
        (prune_resource api c.current_owned_resources)
        (length (a ∷ b ∷ x ∷ xs))
        0
        at_start)
  last-Skips =
      let body = prune_resource api c.current_owned_resources in
      let n = length (b ∷ x ∷ xs) in
      rw (range_from-step array_of body n 0 at_start refl first_round) (
        range_from_inv array_of 1 (Skips api b) body
          (prune_resource-Skips api b c.current_owned_resources) n 1 after_first (omega arith)
          first-Skips)

-- Where the status refers to `a`, `b`, `x` and further resources, of which none but `b` itself is `b`,
-- and the first is pruned, then the reference to `b` stays, also where `b` is no current resource:
-- the loop passes over it.
pub prune_owned_resources_skips :
    {W S : Type 0} (api : Api W S) (c : Context W S) (a b x : OwnedResourceRef)
    (xs : List OwnedResourceRef)
    → c.pkg.owned_resources ≡ a ∷ b ∷ x ∷ xs
    → All (λ (y : OwnedResourceRef). refers_to_same_resource b y ≡ false) (x ∷ xs)
    → IsPruned api c a
    → IsIn b (prune_owned_resources api c).0.pkg.owned_resources
unfolding prune_owned_resources pruned_resources
prune_owned_resources_skips api c a b x xs listed distinct pruned =
    let v = last-Skips api c a b x xs distinct pruned in
    rw listed (IsIn-first _ _ b v.tail v.rest v.array_is v.len_is)
