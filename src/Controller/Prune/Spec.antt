-- ===== src/Controller/Prune/Spec.antt =====
-- What pruneOwnedResources deletes, keeps and passes over.
use glasskube.Base.{
  ℕ, zero, suc, ◌≤◌, String, ◌≡◌, refl, ap, true, false, some, List, [], ◌∷◌, arith, length, IsIn,
  here, there, Bool-cases, inl, inr,
}
use glasskube.Owners.OwnedResources.{OwnedResourceRef, refers_to_same_resource, remove}
use glasskube.Owners.Sets.{same_cong}
use glasskube.Controller.Slices.{
  elements, take, get_elem?, remove_in_place, remove_in_place_lem, IsIn-remove_at, IsIn-get_elem?,
  length-remove_at, range_from_inv,
}
use glasskube.Controller.Types.{
  Reply, found, not_found, get_failed, DeleteReply, deleted, nothing_to_delete, delete_failed, Api,
  Context, is_managed,
}
use glasskube.Controller.Prune.{
  PruneState, array_of, is_current, start_of, forget, after_delete, prune_stale, prune_resource,
  pruned_resources, prune_owned_resources,
}

module _ {W S : Type 0} (api : Api W S) (owned current : List OwnedResourceRef) where
  -- States of the API server that deletions lead to, of managed resources that were owned and no
  -- longer are.
  pub data Deletes (w : W) : W → Type 0 where
    none_yet : Deletes w w
    one_more :
        {v : W}
        → Deletes w v
        → (ref : OwnedResourceRef) (labels : List (String × String)) → IsIn ref owned
        → is_current current ref ≡ false
        → api.get_resource v ref ≡ found labels
        → is_managed labels ≡ true
        → {u : W} → u ≡ (api.delete v ref).0
        → Deletes w u

is_current-cong :
    (current : List OwnedResourceRef) (a b : OwnedResourceRef)
    → refers_to_same_resource a b ≡ true
    → is_current current a ≡ is_current current b
unfolding is_current
is_current-cong [] a b e = refl
is_current-cong (x ∷ xs) a b e = ground (arith, same_cong a b x e, is_current-cong xs a b e)

-- Remove of a resource keeps the others.
IsIn-remove :
    (refs : List OwnedResourceRef) (ref r : OwnedResourceRef)
    → refers_to_same_resource r ref ≡ false
    → IsIn r refs
    → IsIn r (remove refs ref).0
unfolding remove
IsIn-remove [] ref r away m = elim m [ ]
IsIn-remove (x ∷ xs) ref r away m = elim (Bool-cases (refers_to_same_resource x ref)) [
  | inl same ↦ rw same (elim m [ here is_r ↦ cc | there later ↦ later ])
  | inr other ↦
      rw other
        (elim m [ here is_r ↦ here is_r | there later ↦ there (IsIn-remove xs ref r away later) ])
]

IsIn-take : {A : Type 0} (n : ℕ) (xs : List A) (x : A) → IsIn x (take n xs) → IsIn x xs
IsIn-take zero xs x m = elim m [ ]
IsIn-take (suc n) [] x m = m
IsIn-take (suc n) (y ∷ ys) x (here e) = here e
IsIn-take (suc n) (y ∷ ys) x (there m) = there (IsIn-take n ys x m)

take-length : {A : Type 0} (xs : List A) → take (length xs) xs ≡ xs
take-length [] = refl
take-length (x ∷ xs) = ap (λ ys. x ∷ ys) (take-length xs)

module _ {W S : Type 0} (api : Api W S) (owned current : List OwnedResourceRef) (w : W) where
  -- What holds throughout the loop.
  record Inv (s : PruneState W) : Type 0 where
    pub fits : s.slice.len ≤ length s.slice.array
    pub was_owned : (x : OwnedResourceRef) → IsIn x s.slice.array → IsIn x owned
    pub kept :
        (x : OwnedResourceRef)
        → IsIn x owned
        → is_current current x ≡ true
        → IsIn x (elements s.slice)
    pub reached : Deletes api owned current w s.world

  forget-Inv :
      (ref : OwnedResourceRef) (s : PruneState W)
      → is_current current ref ≡ false
      → Inv s
      → Inv (forget ref s)
  unfolding forget remove_in_place
  forget-Inv ref s stale v = record {
    fits = length-remove_at s.slice.array s.slice.len ref v.fits;
    was_owned = λ x m. v.was_owned x (IsIn-remove_at s.slice.array s.slice.len ref x m);
    kept = λ x m is_kept. rw (remove_in_place_lem s.slice ref v.fits).0 (
        IsIn-remove (elements s.slice) ref x
          (ground (arith, is_kept, stale, is_current-cong current x ref)) (v.kept x m is_kept));
    reached = v.reached;
  }

  -- A call of Delete that the loop may make.
  abbrev Allowed : OwnedResourceRef → PruneState W → W × DeleteReply → Type 0
  Allowed ref s reply = Inv s → Inv (record s { world = reply.0 })

  after_delete-Inv :
      (ref : OwnedResourceRef) (reply : W × DeleteReply) (s : PruneState W)
      → is_current current ref ≡ false
      → Allowed ref s reply
      → Inv s
      → Inv (after_delete api (forget ref) reply s)
  after_delete-Inv ref (u, deleted) s stale allowed v =
      forget-Inv ref (record s { world = u }) stale (allowed v)
  after_delete-Inv ref (u, nothing_to_delete) s stale allowed v =
      forget-Inv ref (record s { world = u }) stale (allowed v)
  after_delete-Inv ref (u, delete_failed e) s stale allowed v =
      let v' = allowed v in
      record { fits = v'.fits; was_owned = v'.was_owned; kept = v'.kept; reached = v'.reached }

  prune_stale-Inv :
      (ref : OwnedResourceRef) (s : PruneState W)
      → is_current current ref ≡ false
      → IsIn ref owned
      → Inv s
      → Inv (prune_stale api ref s)
  unfolding prune_stale
  prune_stale-Inv ref s stale was v = by_reply (api.get_resource s.world ref) refl
    where
      by_reply :
          (reply : Reply (List (String × String)))
          → api.get_resource s.world ref ≡ reply
          → Inv (prune_stale api ref s)
      by_reply not_found e = rw (e, prune_stale) v
      by_reply (get_failed m) e =
          rw (e, prune_stale)
            (record { fits = v.fits; was_owned = v.was_owned; kept = v.kept; reached = v.reached })
      by_reply (found labels) e = elim (Bool-cases (is_managed labels)) [
        | inr other ↦ rw (e, prune_stale) (rw other (forget-Inv ref s stale v))
        | inl managed ↦
            rw (e, prune_stale)
              (rw managed (
                after_delete-Inv ref (api.delete s.world ref) s stale
                  (λ v'. record {
                    fits = v'.fits;
                    was_owned = v'.was_owned;
                    kept = v'.kept;
                    reached = one_more v'.reached ref labels was stale e managed refl;
                  })
                  v))
      ]

  prune_resource-Inv :
      (ref : OwnedResourceRef) (j : ℕ) (s : PruneState W)
      → 0 ≤ j
      → get_elem? (array_of s) j ≡ some ref
      → Inv s
      → Inv (prune_resource api current ref s).0
  unfolding prune_resource
  prune_resource-Inv ref j s at_least there_is v = elim (Bool-cases (is_current current ref)) [
    | inl is_kept ↦ rw is_kept v
    | inr stale ↦ rw stale (
        prune_stale-Inv ref s stale (v.was_owned ref (IsIn-get_elem? (array_of s) j ref there_is))
          v)
  ]

-- pruneOwnedResources changes the API server by nothing but deletions of managed resources to which
-- the status referred and which are not current ones. Each reference that it leaves in the status was
-- there, and each current one that was there is left.
pub prune_owned_resources_effect :
    {W S : Type 0} (api : Api W S) (c : Context W S)
    → let owned = c.pkg.owned_resources in
      let after = (prune_owned_resources api c).0 in
      Deletes api owned c.current_owned_resources c.world after.world
      × ((r : OwnedResourceRef) → IsIn r after.pkg.owned_resources → IsIn r owned)
      × ((r : OwnedResourceRef)
          → IsIn r owned
          → is_current c.current_owned_resources r ≡ true
          → IsIn r after.pkg.owned_resources)
unfolding prune_owned_resources pruned_resources
prune_owned_resources_effect api c =
    let owned = c.pkg.owned_resources in
    let current = c.current_owned_resources in
    let at_start : Inv api owned current c.world (start_of c.world owned) = record {
      fits = omega arith;
      was_owned = λ x m. m;
      kept = λ x m is_kept. rw (take-length owned) m;
      reached = none_yet;
    } in
    let v =
      range_from_inv array_of 0 (Inv api owned current c.world) (prune_resource api current)
        (prune_resource-Inv api owned current c.world) (length owned) 0 (start_of c.world owned)
        (omega arith) at_start in
    (v.reached, λ r m. v.was_owned r (IsIn-take _ _ r m), λ r m is_kept. v.kept r m is_kept)
