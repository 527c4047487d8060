-- ===== src/Assoc.antt =====
-- Go's maps, as association lists: `m[k]`, `m[k] = v` and the keys that a `range` visits.
-- A key stays where it was first inserted.
use glasskube.Base.{
  String, ◌≡◌, refl, ◌↔◌, Bool, true, false, ◌||◌, Option, none, some, List, [], ◌∷◌, ◌++◌, arith,
  str_eq, eq_iff, if◌then◌else◌, is_some, append-eq-nil, ap,
}

-- A type of keys, with Go's `==` on it.
pub record Key {ℓ} (K : Type ℓ) : Type ℓ where
  pub same : K → K → Bool
  pub same_iff : (j k : K) → (same j k ≡ true) ↔ (j ≡ k)

instance abbrev pub string_key : Key String
string_key = record { same = str_eq; same_iff = eq_iff }

abbrev pub same {ℓ} : {K : Type ℓ} ⦃key : Key K⦄ → K → K → Bool
same ⦃key⦄ = key.same

module _ {ℓ} {K : Type ℓ} ⦃key : Key K⦄ where
  -- `slices.Contains`, and whether a `range` over these keys visits `k`.
  unfoldable pub contains : List K → K → Bool
  contains [] k = false
  contains (j ∷ ks) k = same j k || contains ks k

  pub same_refl : (k : K) → same k k ≡ true
  same_refl k = (key.same_iff k k).1 refl

module _ {ℓ κ} {K : Type ℓ} {V : Type κ} ⦃key : Key K⦄ where
  -- m[k]
  unfoldable pub get : List (K × V) → K → Option V
  get [] k = none
  get ((j, v) ∷ m) k = if same j k then some v else get m k

  -- m[k] = v
  unfoldable pub put : List (K × V) → K → V → List (K × V)
  put [] k v = (k, v) ∷ []
  put ((j, w) ∷ m) k v = if same j k then (j, v) ∷ m else (j, w) ∷ put m k v

  unfoldable pub keys : List (K × V) → List K
  keys [] = []
  keys ((j, v) ∷ m) = j ∷ keys m

  pub get-put :
      (m : List (K × V)) (k j : K) (v : V)
      → get (put m k v) j ≡ (if same k j then some v else get m j)
  unfolding get put
  get-put [] k j v = refl
  get-put ((i, w) ∷ m) k j v =
      ground (arith, key.same_iff i k, key.same_iff k j, key.same_iff i j, get-put m k j v)

  pub get-put_self : (m : List (K × V)) (k : K) (v : V) → get (put m k v) k ≡ some v
  get-put_self m k v = ground (arith, get-put m k k v, key.same_iff k k)

  pub put-get_self : (m : List (K × V)) (k : K) (v : V) → get m k ≡ some v → put m k v ≡ m
  unfolding get put
  put-get_self [] k v h = cc
  put-get_self ((j, w) ∷ m) k v h = ground (arith, put-get_self m k v)

  pub contains-keys : (m : List (K × V)) (k : K) → contains (keys m) k ≡ is_some (get m k)
  unfolding contains keys get
  contains-keys [] k = refl
  contains-keys ((j, v) ∷ m) k = ground (arith, contains-keys m k)

  pub contains-keys_of_get :
      (m : List (K × V)) (k : K) {v : V} → get m k ≡ some v → contains (keys m) k ≡ true
  contains-keys_of_get m k h = ground (arith, contains-keys m k)

  -- A write to a key that is there leaves the keys as they are.
  pub keys-put :
      (m : List (K × V)) (k : K) (v : V) → contains (keys m) k ≡ true → keys (put m k v) ≡ keys m
  unfolding contains keys put
  keys-put [] k v h = cc
  keys-put ((j, w) ∷ m) k v h = ground (arith, keys-put m k v)

module _ {ℓ κ} {A : Type ℓ} {B : Type κ} where
  -- A loop that appends what `f` gives for each element.
  unfoldable pub collect : (A → List B) → List A → List B
  collect f [] = []
  collect f (x ∷ xs) = f x ++ collect f xs

module _ {ℓ κ} {K : Type ℓ} {B : Type κ} ⦃key : Key K⦄ where
  pub collect-eq-nil :
      (f : K → List B) (ks : List K) (k : K) → collect f ks ≡ [] → contains ks k ≡ true → f k ≡ []
  unfolding collect contains
  collect-eq-nil f [] k e h = cc
  collect-eq-nil f (j ∷ ks) k e h = ground (
    arith,
    append-eq-nil (f j) (collect f ks) e,
    collect-eq-nil f ks k,
    key.same_iff j k,
    λ (p : j ≡ k). ap f p,
  )

  pub collect-nil :
      (f : K → List B) (ks : List K)
      → ((k : K) → contains ks k ≡ true → f k ≡ [])
      → collect f ks ≡ []
  unfolding collect contains
  collect-nil f [] h = refl
  collect-nil f (j ∷ ks) h =
      rw (h j (ground (arith, same_refl j))) (collect-nil f ks (λ k m. h k (ground arith)))
