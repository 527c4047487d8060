-- ===== src/Text.antt =====
-- The functions of Go's strings that split texts, at a separator of one character.
use Prim.Native.Char.{Char, code}
use Prim.Native.String.{◌++◌ as append}
use text.Mathlib.TextLemmas.{nil-append, cons-append}
use glasskube.Base.{
  ℕ, zero, suc, String, ◌≡◌, refl, Bool, true, Option, none, some, List, [], ◌∷◌, ◌==◌, arith,
  if◌then◌else◌, is_some, Bool-cases, inl, inr,
}

abbrev pub prepend : {B : Type 0} → Char → Option (String × B) → Option (String × B)
prepend c none = none
prepend c (some (a, b)) = some (String.◌∷◌ c a, b)

-- strings.Cut: what is before and after the first separator.
unfoldable pub cut : Char → String → Option (String × String)
cut sep String.[] = none
cut sep (String.◌∷◌ c s) = if code c == code sep then some (String.[], s) else prepend c (cut sep s)

abbrev pub rest_or : String → Option (String × String) → (String → List String) → List String
rest_or s none f = s ∷ []
rest_or s (some (a, b)) f = a ∷ f b

-- strings.SplitN with the number of parts, the last of which is not split.
unfoldable pub split_n : Char → ℕ → String → List String
unfolding cut
split_n sep zero s = []
split_n sep (suc zero) s = s ∷ []
split_n sep (suc (suc n)) s = rest_or s (cut sep s) (split_n sep (suc n))

abbrev pub prepend_head : Char → List String → List String
prepend_head c [] = []
prepend_head c (s ∷ ss) = String.◌∷◌ c s ∷ ss

-- strings.Split
unfoldable pub split : Char → String → List String
split sep String.[] = String.[] ∷ []
split sep (String.◌∷◌ c s) =
    if code c == code sep then String.[] ∷ split sep s else prepend_head c (split sep s)

-- What is left of a text behind a prefix, if it has the prefix.
unfoldable pub strip : String → String → Option String
strip String.[] s = some s
strip (String.◌∷◌ c p) String.[] = none
strip (String.◌∷◌ c p) (String.◌∷◌ d s) = if code c == code d then strip p s else none

-- strings.HasPrefix, with the prefix first.
unfoldable pub has_prefix : String → String → Bool
unfolding strip
has_prefix p s = is_some (strip p s)

abbrev pub or_whole : String → Option String → String
or_whole s none = s
or_whole s (some r) = r

-- strings.TrimPrefix, with the prefix first.
unfoldable pub trim_prefix : String → String → String
unfolding strip
trim_prefix p s = or_whole s (strip p s)

-- The text has no separator.
abbrev pub IsFree : Char → String → Type 0
IsFree sep s = cut sep s ≡ none

prepend-none : {B : Type 0} (c : Char) (o : Option (String × B)) → prepend c o ≡ none → o ≡ none
prepend-none c none e = refl
prepend-none c (some (a, b)) e = cc

-- A separator character is itself.
same_code : (c : Char) → (code c == code c) ≡ true
same_code c = ground arith

pub cut-append :
    (sep : Char) (a b : String) → IsFree sep a → cut sep (append a (String.◌∷◌ sep b)) ≡ some (a, b)
unfolding cut
cut-append sep String.[] b free = rw (nil-append (String.◌∷◌ sep b)) (rw (same_code sep) refl)
cut-append sep (String.◌∷◌ c a) b free = elim (Bool-cases (code c == code sep)) [
  | inl same ↦ cc (rw same at free)
  | inr other ↦
      let rest = cut-append sep a b (prepend-none c (cut sep a) (rw other at free)) in
      rw (cons-append c a (String.◌∷◌ sep b)) (rw (other, rest) refl)
]

pub strip-append : (p s : String) → strip p (append p s) ≡ some s
unfolding strip
strip-append String.[] s = rw (nil-append s) refl
strip-append (String.◌∷◌ c p) s = rw (cons-append c p s) (rw (same_code c) (strip-append p s))

pub trim_prefix-append : (p s : String) → trim_prefix p (append p s) ≡ s
unfolding trim_prefix
trim_prefix-append p s = rw (strip-append p s) refl
