-- ===== src/Strconv.antt =====
-- Go's `strconv.Atoi` and `strconv.ParseBool`, as internal/semver/compare.go and
-- internal/manifestvalues/validate.go call them. `int` has 64 bits.
use Prim.Native.Char.{code}
use glasskube.Base.{
  ℕ, zero, suc, ◌+◌, ◌-◌, ◌*◌, ◌^◌, String, ◌≡◌, refl, Bool, true, false, ◌&&◌, ◌||◌, Option, none,
  some, List, [], ◌∷◌, ltb, leb, ◌==◌, str_eq, if◌then◌else◌,
}
use glasskube.Base.Int.{ℤ, pos, negsuc}

-- The code points of a text: its bytes, where it is ASCII.
abbrev pub codes : String → List ℕ
codes String.[] = []
codes (String.◌∷◌ c s) = code c ∷ codes s

-- The digits of a number in base 10, after those that give `n`.
digits : ℕ → List ℕ → Option ℕ
digits n [] = some n
digits n (c ∷ cs) =
    let rest = digits (n * 10 + (c - b'0')) cs in if leb b'0' c && leb c b'9' then rest else none

-- At least one digit.
magnitude : List ℕ → Option ℕ
unfolding digits
magnitude [] = none
magnitude (c ∷ cs) = digits 0 (c ∷ cs)

negate : ℕ → ℤ
negate zero = pos 0
negate (suc n) = negsuc n

in_range : Bool → Option ℕ → Option ℤ
unfolding negate
in_range minus none = none
in_range false (some n) = if ltb n (2 ^ 63) then some (pos n) else none
in_range true (some n) = if leb n (2 ^ 63) then some (negate n) else none

sign : List ℕ → Option ℤ
unfolding magnitude in_range
sign [] = none
sign (c ∷ cs) =
    if c == b'-'
    then in_range true (magnitude cs)
    else in_range false (if c == b'+' then magnitude cs else magnitude (c ∷ cs))

-- strconv.Atoi; `none` is an error, of syntax or of range.
unfoldable pub atoi : String → Option ℤ
unfolding sign
atoi s = sign (codes s)

-- strconv.ParseBool
unfoldable pub parse_bool : String → Option Bool
parse_bool s =
    if str_eq s "1"
      || str_eq s "t"
      || str_eq s "T"
      || str_eq s "true"
      || str_eq s "TRUE"
      || str_eq s "True"
    then some true
    else if str_eq s "0"
        || str_eq s "f"
        || str_eq s "F"
        || str_eq s "false"
        || str_eq s "FALSE"
        || str_eq s "False"
    then some false
    else none

atoi_test :
    (atoi "-12" ≡ some (negsuc 11))
    × (atoi "+7" ≡ some (pos 7))
    × (atoi "" ≡ none)
    × (atoi "+" ≡ none)
    × (atoi "9223372036854775808" ≡ none)
    × (atoi "-9223372036854775808" ≡ some (negsuc 9223372036854775807))
unfolding atoi
atoi_test = (refl, refl, refl, refl, refl, refl)
