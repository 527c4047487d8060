-- ===== src/Owners/Sets.antt =====
-- Owned resources as a set: what `Add` and `Remove` do to the resources that a list refers to.
use glasskube.Base.{
  ◌≡◌, refl, Bool, true, false, not, ◌&&◌, ◌||◌, List, [], ◌∷◌, ◌++◌, arith, eq_iff, Bool-cases,
  inl, inr,
}
use glasskube.Owners.OwnedResources.{
  OwnedResourceRef, refers_to_same_resource, refers, add_from, add, remove, mark_for_deletion,
}

pub same_cong :
    (a b r : OwnedResourceRef)
    → refers_to_same_resource a b ≡ true
    → refers_to_same_resource a r ≡ refers_to_same_resource b r
unfolding refers_to_same_resource
same_cong a b r e = ground (
  arith,
  e,
  eq_iff a.group b.group,
  eq_iff a.version b.version,
  eq_iff a.kind b.kind,
  eq_iff a.name b.name,
  eq_iff a.namespace b.namespace,
)

refers-cong :
    (refs : List OwnedResourceRef) (a r : OwnedResourceRef)
    → refers refs a ≡ true
    → refers_to_same_resource a r ≡ true
    → refers refs r ≡ true
unfolding refers
refers-cong [] a r e same = cc
refers-cong (x ∷ xs) a r e same = ground (arith, same_cong x a r, refers-cong xs a r)

refers-append :
    (xs ys : List OwnedResourceRef) (r : OwnedResourceRef)
    → refers (xs ++ ys) r ≡ (refers xs r || refers ys r)
unfolding refers
refers-append [] ys r = refl
refers-append (x ∷ xs) ys r = ground (arith, refers-append xs ys r)

refers-add_from :
    (refs new_refs : List OwnedResourceRef) (changed : Bool) (r : OwnedResourceRef)
    → refers (add_from refs new_refs changed).0 r ≡ (refers refs r || refers new_refs r)
unfolding add_from refers
refers-add_from refs [] changed r = ground arith
refers-add_from refs (x ∷ xs) changed r = elim (Bool-cases (refers refs x)) [
  | inl there ↦
      rw there (ground (arith, refers-add_from refs xs changed r, refers-cong refs x r there))
  | inr new ↦
      rw new
        (ground (arith, refers-add_from (refs ++ x ∷ []) xs true r, refers-append refs (x ∷ []) r))
]

-- The list after Add refers to exactly the resources to which it referred before and those added.
pub refers-add :
    (refs new_refs : List OwnedResourceRef) (r : OwnedResourceRef)
    → refers (add refs new_refs).0 r ≡ (refers refs r || refers new_refs r)
unfolding add
refers-add refs new_refs r = refers-add_from refs new_refs false r

pub same_sym :
    (a b : OwnedResourceRef)
    → refers_to_same_resource a b ≡ true
    → refers_to_same_resource b a ≡ true
unfolding refers_to_same_resource
same_sym a b e = ground (
  arith,
  e,
  eq_iff a.group b.group,
  eq_iff a.version b.version,
  eq_iff a.kind b.kind,
  eq_iff a.name b.name,
  eq_iff a.namespace b.namespace,
  eq_iff b.group a.group,
  eq_iff b.version a.version,
  eq_iff b.kind a.kind,
  eq_iff b.name a.name,
  eq_iff b.namespace a.namespace,
)

-- No two entries refer to the same resource.
abbrev pub IsUnique : List OwnedResourceRef → Type 0
IsUnique [] = Unit
IsUnique (x ∷ xs) = (refers xs x ≡ false) × IsUnique xs

IsUnique-append :
    (xs : List OwnedResourceRef) (x : OwnedResourceRef)
    → IsUnique xs
    → refers xs x ≡ false
    → IsUnique (xs ++ x ∷ [])
unfolding refers
IsUnique-append [] x unique new = (refl, tt)
IsUnique-append (y ∷ ys) x (away, unique) new = (
  ground (arith, refers-append ys (x ∷ []) y, away, new, same_sym x y),
  IsUnique-append ys x unique (ground (arith, new)),
)

add_from-IsUnique :
    (refs new_refs : List OwnedResourceRef) (changed : Bool)
    → IsUnique refs
    → IsUnique (add_from refs new_refs changed).0
unfolding add_from
add_from-IsUnique refs [] changed unique = unique
add_from-IsUnique refs (x ∷ xs) changed unique = elim (Bool-cases (refers refs x)) [
  | inl there ↦ rw there (add_from-IsUnique refs xs changed unique)
  | inr new ↦
      rw new (add_from-IsUnique (refs ++ x ∷ []) xs true (IsUnique-append refs x unique new))
]

-- Add leaves a list without duplicates without duplicates, whatever it adds.
pub add-IsUnique :
    (refs new_refs : List OwnedResourceRef) → IsUnique refs → IsUnique (add refs new_refs).0
unfolding add
add-IsUnique refs new_refs unique = add_from-IsUnique refs new_refs false unique

-- In a list without duplicates, Remove takes away the resource of its argument and no other, and
-- returns whether the list referred to it.
pub refers-remove :
    (refs : List OwnedResourceRef) (t : OwnedResourceRef)
    → IsUnique refs
    → ((r : OwnedResourceRef)
        → refers (remove refs t).0 r ≡ (refers refs r && not (refers_to_same_resource t r)))
      × ((remove refs t).1 ≡ refers refs t)
unfolding remove refers
refers-remove [] t unique = (λ r. refl, refl)
refers-remove (x ∷ xs) t (away, unique) =
    let (kept, changed) = refers-remove xs t unique in
    elim (Bool-cases (refers_to_same_resource x t)) [
      | inl here ↦
          rw here (
            λ r. ground (arith, same_cong x t r here, refers-cong xs r x, same_sym x r, away),
            refl,
          )
      | inr other ↦ rw other (λ r. ground (arith, kept r, same_cong x r t, same_sym t r), changed)
    ]

-- MarkForDeletion changes no resource to which the list refers, and returns whether it referred to
-- that of the argument.
pub refers-mark_for_deletion :
    (refs : List OwnedResourceRef) (t : OwnedResourceRef)
    → ((r : OwnedResourceRef) → refers (mark_for_deletion refs t).0 r ≡ refers refs r)
      × ((mark_for_deletion refs t).1 ≡ refers refs t)
unfolding mark_for_deletion refers refers_to_same_resource
refers-mark_for_deletion [] t = (λ r. refl, refl)
refers-mark_for_deletion (x ∷ xs) t =
    let (kept, changed) = refers-mark_for_deletion xs t in
    elim (Bool-cases (refers_to_same_resource x t)) [
      | inl here ↦ rw here (λ r. refl, refl)
      | inr other ↦ rw other (λ r. ground (arith, kept r), changed)
    ]
