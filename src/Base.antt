-- ===== src/Base.antt =====
-- The names that the other modules share: the libraries', passed on, the tests on numbers and on
-- booleans, and lists measured by native numbers.
pub mod Int
use mathlib.Core.Path.{subst}
use Prim.Native.Nat.{compare, Ordering}
pub use Prim.Native.Nat.{ℕ, zero, suc, ◌+◌, ◌-◌, ◌*◌, ◌^◌, ◌≤◌, ◌<◌}
pub use Prim.Native.String.{String}
pub use mathlib.Core.Path.{◌≡◌, refl, sym, ap, ◌∙◌}
pub use mathlib.Core.Logic.{◌≢◌, ◌↔◌, ◌⊎◌, inl, inr}
pub use mathlib.Core.Bool.{Bool, true, false, not, ◌&&◌, ◌||◌}
pub use mathlib.Core.Option.{Option, none, some}
pub use mathlib.Core.List.{List, [], ◌∷◌, ◌++◌, map}
pub use native.Mathlib.Omega.{arith}
pub use text.Mathlib.Text.{◌==◌ as str_eq}
pub use text.Mathlib.TextEquality.{eq_iff}

abbrev pub ltb : ℕ → ℕ → Bool
ltb a b = elim (compare a b) [ Ordering.lt ↦ true | _ ↦ false ]

abbrev pub leb : ℕ → ℕ → Bool
leb a b = elim (compare a b) [ Ordering.gt ↦ false | _ ↦ true ]

infix 50 ◌==◌
abbrev pub ◌==◌ : ℕ → ℕ → Bool
a == b = elim (compare a b) [ Ordering.eq ↦ true | _ ↦ false ]

infix 1 if◌then◌else◌
abbrev pub if◌then◌else◌ {ℓ} : {A : Type ℓ} → Bool → A → A → A
if true then x else y = x
if false then x else y = y

-- To split on a computed value and keep the equation.
pub Bool-cases : (b : Bool) → (b ≡ true) ⊎ (b ≡ false)
Bool-cases true = inl refl
Bool-cases false = inr refl

-- What holds of both branches.
pub if_both {ℓ κ} :
    {A : Type ℓ} (P : A → Type κ) (b : Bool) {x y : A} → P x → P y → P (if b then x else y)
if_both P true h k = h
if_both P false h k = k

-- What holds of the branch that is taken.
pub if_else {ℓ κ} :
    {A : Type ℓ} (P : A → Type κ) (b : Bool) (x : A) {y : A}
    → b ≡ false
    → P y
    → P (if b then x else y)
if_else P true x e h = cc
if_else P false x e h = h

pub Option-cases {ℓ} : {A : Type ℓ} (o : Option A) → (o ≡ none) ⊎ ((a : A) × (o ≡ some a))
Option-cases none = inl refl
Option-cases (some a) = inr (a, refl)

-- A Go function's value and error, of which one is set.
pub data Result {ℓ κ} (E : Type ℓ) (A : Type κ) : Type (ℓ ⊔ κ) where
  ok : A → Result E A
  err : E → Result E A

infixl 5 ◌>>=◌
abbrev pub ◌>>=◌ {ℓ κ μ} :
    {E : Type ℓ} {A : Type κ} {B : Type μ} → Result E A → (A → Result E B) → Result E B
ok a >>= f = f a
err e >>= f = err e

pub ok-injective {ℓ κ} :
    {E : Type ℓ} {A : Type κ} {x y : A} → ◌≡◌ {A = Result E A} (ok x) (ok y) → x ≡ y
ok-injective e = cc

pub Result-cases {ℓ κ} :
    {E : Type ℓ} {A : Type κ} (r : Result E A) → ((a : A) × (r ≡ ok a)) ⊎ ((e : E) × (r ≡ err e))
Result-cases (ok a) = inl (a, refl)
Result-cases (err e) = inr (e, refl)

abbrev pub is_some {ℓ} : {A : Type ℓ} → Option A → Bool
is_some none = false
is_some (some a) = true

module _ {ℓ} {A : Type ℓ} where
  abbrev pub length : List A → ℕ
  length [] = 0
  length (x ∷ xs) = suc (length xs)

  abbrev pub is_empty : List A → Bool
  is_empty [] = true
  is_empty (x ∷ xs) = false

  pub is_empty_iff : (xs : List A) → (is_empty xs ≡ true) ↔ (xs ≡ [])
  is_empty_iff [] = (λ e. refl, λ e. refl)
  is_empty_iff (x ∷ xs) = (λ e. cc, λ e. cc)

  pub append-eq-nil : (xs ys : List A) → xs ++ ys ≡ [] → (xs ≡ []) × (ys ≡ [])
  append-eq-nil [] ys e = (refl, e)
  append-eq-nil (x ∷ xs) ys e = cc

-- `x` is an element of the list.
pub data IsIn {ℓ} {A : Type ℓ} (x : A) : List A → Type ℓ where
  here : {y : A} {ys : List A} → y ≡ x → IsIn x (y ∷ ys)
  there : {y : A} {ys : List A} → IsIn x ys → IsIn x (y ∷ ys)

abbrev pub All {ℓ κ} : {A : Type ℓ} → (A → Type κ) → List A → Type κ
All P [] = Unit
All P (x ∷ xs) = P x × All P xs

pub All-IsIn {ℓ κ} :
    {A : Type ℓ} (P : A → Type κ) {x : A} {xs : List A} → All P xs → IsIn x xs → P x
All-IsIn P h (here e) = subst P e h.0
All-IsIn P h (there m) = All-IsIn P h.1 m

-- Inversion of a successful bind.
pub bind-eq-ok {ℓ κ μ} :
    {E : Type ℓ} {A : Type κ} {B : Type μ} (r : Result E A) (f : A → Result E B) {b : B}
    → (r >>= f) ≡ ok b
    → (a : A) × (r ≡ ok a) × (f a ≡ ok b)
bind-eq-ok (ok a) f e = (a, refl, e)
bind-eq-ok (err x) f e = cc

pub IsIn-append_left {ℓ} :
    {A : Type ℓ} {x : A} {xs : List A} (ys : List A) → IsIn x xs → IsIn x (xs ++ ys)
IsIn-append_left ys (here e) = here e
IsIn-append_left ys (there m) = there (IsIn-append_left ys m)

pub IsIn-append_right {ℓ} :
    {A : Type ℓ} {x : A} (xs : List A) {ys : List A} → IsIn x ys → IsIn x (xs ++ ys)
IsIn-append_right [] m = m
IsIn-append_right (y ∷ xs) m = there (IsIn-append_right xs m)

pub IsIn-append {ℓ} :
    {A : Type ℓ} {x : A} (xs : List A) {ys : List A} → IsIn x (xs ++ ys) → IsIn x xs ⊎ IsIn x ys
IsIn-append [] m = inr m
IsIn-append (y ∷ xs) (here e) = inl (here e)
IsIn-append (y ∷ xs) (there m) = elim (IsIn-append xs m) [ inl l ↦ inl (there l) | inr r ↦ inr r ]

-- An element of a list that has one more element under a test.
pub IsIn-if {ℓ} :
    {A : Type ℓ} (b : Bool) {x y : A} {xs : List A}
    → IsIn x (if b then y ∷ xs else xs)
    → ((b ≡ true) × (y ≡ x)) ⊎ IsIn x xs
IsIn-if true (here e) = inl (refl, e)
IsIn-if true (there m) = inr m
IsIn-if false m = inr m

pub IsIn-if_later {ℓ} :
    {A : Type ℓ} (b : Bool) {x : A} (y : A) {xs : List A}
    → IsIn x xs
    → IsIn x (if b then y ∷ xs else xs)
IsIn-if_later true y m = there m
IsIn-if_later false y m = m
