-- ===== src/Controller/Slices.antt =====
-- Loops over a Go slice whose array is written in the loop. `s[:]` has the array of `s`, and
-- `append(s[:i], s[i+1:]...)` moves the later elements of `s` in that array, where a `range` that has
-- begun reads them.
use glasskube.Base.{
  ℕ, zero, suc, ◌≤◌, ◌≡◌, refl, Bool, true, false, Option, none, some, List, [], ◌∷◌, arith, length,
  if◌then◌else◌, IsIn, here, there, Bool-cases, Option-cases, inl, inr, ap,
}
use glasskube.Owners.OwnedResources.{OwnedResourceRef, refers_to_same_resource, remove}

abbrev pub get_elem? {ℓ} : {A : Type ℓ} → List A → ℕ → Option A
get_elem? [] i = none
get_elem? (x ∷ xs) zero = some x
get_elem? (x ∷ xs) (suc i) = get_elem? xs i

abbrev pub take {ℓ} : {A : Type ℓ} → ℕ → List A → List A
take zero xs = []
take (suc n) [] = []
take (suc n) (x ∷ xs) = x ∷ take n xs

-- The array after its elements 1 to n have been copied to the places 0 to n - 1.
unfoldable pub shift : {A : Type 0} → ℕ → List A → List A
shift zero xs = xs
shift (suc n) [] = []
shift (suc n) (x ∷ []) = x ∷ []
shift (suc n) (x ∷ y ∷ ys) = y ∷ shift n (y ∷ ys)

-- An array, and the length of a slice at its start.
pub record Slice : Type 0 where
  pub array : List OwnedResourceRef
  pub len : ℕ

abbrev pub elements : Slice → List OwnedResourceRef
elements s = take s.len s.array

abbrev behind : OwnedResourceRef → Slice × Bool → Slice × Bool
behind x (s, changed) = (record { array = x ∷ s.array; len = suc s.len }, changed)

unfoldable pub remove_at : List OwnedResourceRef → ℕ → OwnedResourceRef → Slice × Bool
unfolding shift refers_to_same_resource
remove_at xs zero ref = (record { array = xs; len = zero }, false)
remove_at [] (suc n) ref = (record { array = []; len = suc n }, false)
remove_at (x ∷ xs) (suc n) ref =
    if refers_to_same_resource x ref
    then (record { array = shift n (x ∷ xs); len = n }, true)
    else behind x (remove_at xs n ref)

-- ownerutils.Remove, with what it does to the array of its slice.
unfoldable pub remove_in_place : Slice → OwnedResourceRef → Slice × Bool
unfolding remove_at
remove_in_place s ref = remove_at s.array s.len ref

pub IsIn-get_elem? :
    {A : Type 0} (xs : List A) (i : ℕ) (x : A) → get_elem? xs i ≡ some x → IsIn x xs
IsIn-get_elem? [] i x e = cc
IsIn-get_elem? (y ∷ ys) zero x e = here (cc)
IsIn-get_elem? (y ∷ ys) (suc i) x e = there (IsIn-get_elem? ys i x e)

pub IsIn-shift : {A : Type 0} (n : ℕ) (xs : List A) (x : A) → IsIn x (shift n xs) → IsIn x xs
unfolding shift
IsIn-shift zero xs x m = m
IsIn-shift (suc n) [] x m = m
IsIn-shift (suc n) (y ∷ []) x m = m
IsIn-shift (suc n) (y ∷ z ∷ zs) x (here e) = there (here e)
IsIn-shift (suc n) (y ∷ z ∷ zs) x (there m) = there (IsIn-shift n (z ∷ zs) x m)

length-shift : {A : Type 0} (n : ℕ) (xs : List A) → length (shift n xs) ≡ length xs
unfolding shift
length-shift zero xs = refl
length-shift (suc n) [] = refl
length-shift (suc n) (x ∷ []) = refl
length-shift (suc n) (x ∷ y ∷ ys) = omega (arith, length-shift n (y ∷ ys))

take-shift :
    {A : Type 0} (n : ℕ) (x : A) (xs : List A)
    → n ≤ length xs
    → take n (shift n (x ∷ xs)) ≡ take n xs
unfolding shift
take-shift zero x xs h = refl
take-shift (suc n) x [] h = absurd (omega arith)
take-shift (suc n) x (y ∷ ys) h = ap (λ zs. y ∷ zs) (take-shift n y ys (omega arith))

remove_at-elements :
    (xs : List OwnedResourceRef) (n : ℕ) (ref : OwnedResourceRef)
    → n ≤ length xs
    → (elements (remove_at xs n ref).0 ≡ (remove (take n xs) ref).0)
      × ((remove_at xs n ref).1 ≡ (remove (take n xs) ref).1)
unfolding remove_at remove
remove_at-elements xs zero ref h = (refl, refl)
remove_at-elements [] (suc n) ref h = absurd (omega arith)
remove_at-elements (x ∷ xs) (suc n) ref h = elim (Bool-cases (refers_to_same_resource x ref)) [
  | inl same ↦ rw same (take-shift n x xs (omega arith), refl)
  | inr other ↦
      let (ih, changed) = remove_at-elements xs n ref (omega arith) in
      rw other (ap (λ zs. x ∷ zs) ih, changed)
]

-- On a slice that its array holds, Remove in place has the effect of Remove on the list of its
-- elements.
pub remove_in_place_lem :
    (s : Slice) (ref : OwnedResourceRef)
    → s.len ≤ length s.array
    → (elements (remove_in_place s ref).0 ≡ (remove (elements s) ref).0)
      × ((remove_in_place s ref).1 ≡ (remove (elements s) ref).1)
unfolding remove_in_place
remove_in_place_lem s ref h = remove_at-elements s.array s.len ref h

pub IsIn-remove_at :
    (xs : List OwnedResourceRef) (n : ℕ) (ref x : OwnedResourceRef)
    → IsIn x (remove_at xs n ref).0.array
    → IsIn x xs
unfolding remove_at
IsIn-remove_at xs zero ref x m = m
IsIn-remove_at [] (suc n) ref x m = m
IsIn-remove_at (y ∷ ys) (suc n) ref x m = elim (Bool-cases (refers_to_same_resource y ref)) [
  | inl same ↦ IsIn-shift n (y ∷ ys) x (rw same at m)
  | inr other ↦ elim (rw other at m) [
    | here e ↦ here e
    | there later ↦ there (IsIn-remove_at ys n ref x later)
  ]
]

pub length-remove_at :
    (xs : List OwnedResourceRef) (n : ℕ) (ref : OwnedResourceRef)
    → n ≤ length xs
    → (remove_at xs n ref).0.len ≤ length (remove_at xs n ref).0.array
unfolding remove_at
length-remove_at xs zero ref h = omega arith
length-remove_at [] (suc n) ref h = absurd (omega arith)
length-remove_at (x ∷ xs) (suc n) ref h = elim (Bool-cases (refers_to_same_resource x ref)) [
  | inl same ↦ rw same (omega (arith, length-shift n (x ∷ xs)))
  | inr other ↦ rw other (omega (arith, length-remove_at xs n ref (omega arith)))
]

-- `for _, ref := range refs`, where `body` may write the array, and returns whether it breaks off.
module _ {A : Type 0} (array_of : A → List OwnedResourceRef) where
  unfoldable pub range_from : (OwnedResourceRef → A → A × Bool) → ℕ → ℕ → A → A
  range_from body zero i a = a
  range_from body (suc n) i a = elim (get_elem? (array_of a) i) [
    | none ↦ a
    | some ref ↦
        let (a', stops) = body ref a in
        let rest = range_from body n (suc i) a' in if stops then a' else rest
  ]

  pub range_from-step :
      (body : OwnedResourceRef → A → A × Bool) (n i : ℕ) (a : A) {ref : OwnedResourceRef} {a' : A}
      → get_elem? (array_of a) i ≡ some ref
      → body ref a ≡ (a', false)
      → range_from body (suc n) i a ≡ range_from body n (suc i) a'
  unfolding range_from
  range_from-step body n i a there_is goes_on = rw (there_is, range_from) (rw goes_on refl)

  -- A property that each round from the place `start` on keeps holds after the loop.
  pub range_from_inv :
      (start : ℕ) (P : A → Type 0) (body : OwnedResourceRef → A → A × Bool)
      → ((ref : OwnedResourceRef) (j : ℕ) (a : A)
          → start ≤ j
          → get_elem? (array_of a) j ≡ some ref
          → P a
          → P (body ref a).0)
      → (n i : ℕ) (a : A) → start ≤ i
      → P a
      → P (range_from body n i a)
  unfolding range_from
  range_from_inv start P body keep zero i a at_least h = h
  range_from_inv start P body keep (suc n) i a at_least h =
      elim (Option-cases (get_elem? (array_of a) i)) [
        | inl past ↦ rw (past, range_from) h
        | inr (ref, there_is) ↦
            let kept = keep ref i a at_least there_is h in
            let rest =
              range_from_inv start P body keep n (suc i) (body ref a).0 (omega arith) kept in
            rw (there_is, range_from)
              (elim (Bool-cases (body ref a).1) [
                | inl stops ↦ rw stops kept
                | inr goes_on ↦ rw goes_on rest
              ])
      ]
