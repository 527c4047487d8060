-- ===== src/Semver/Samples.antt =====
-- A small version library that satisfies `IsLawful`, and what the code does on its versions.
use glasskube.Base.{
  ℕ, String, ◌≡◌, refl, true, false, Result, ok, err, [], ◌∷◌, inr, arith, ltb, leb, ◌==◌, str_eq,
  if◌then◌else◌,
}
use glasskube.Base.Int.{pos}
use glasskube.Strconv.{atoi}
use glasskube.Semver.{Semver, IsLawful, is_version_upgradable, is_upgradable}
use glasskube.Semver.Order.{IsNumeric}

pub record Release : Type 0 where
  pub number : ℕ
  pub build : String
  pub text : String

abbrev pub release : ℕ → String → String → Release
release number build text = record { number = number; build = build; text = text }

abbrev parse_release : String → Result String Release
parse_release s =
    if str_eq s "1"
    then ok (release 1 "" "1")
    else if str_eq s "1+3"
    then ok (release 1 "3" "1+3")
    else if str_eq s "1+7"
    then ok (release 1 "7" "1+7")
    else if str_eq s "2"
    then ok (release 2 "" "2")
    else err "Invalid Semantic Version"

abbrev parse_minimum : String → Result String ℕ
parse_minimum s =
    if str_eq s ">=1" then ok 1 else if str_eq s ">=2" then ok 2 else err "improper constraint"

-- A constraint is the least number that it allows.
abbrev pub releases : Semver Release ℕ
releases = record {
  new_version = parse_release;
  greater_than = λ v o. ltb o.number v.number;
  equal = λ v o. v.number == o.number;
  metadata = λ v. v.build;
  original = λ v. v.text;
  new_constraint = parse_minimum;
  violations = λ c v. if leb c v.number then [] else "is less than the minimum" ∷ [];
  constraint_string = λ c. if c == 1 then ">=1" else ">=2";
}

pub releases-IsLawful : IsLawful releases
releases-IsLawful = record {
  greater_asymm = λ a b h. ground arith;
  not_greater_trans = λ a b c h k. ground arith;
  equal_eq = λ a b. ground arith;
}

is_upgradable_test :
    (is_upgradable releases "1" "1+3" ≡ true)
    × (is_upgradable releases "1+7" "1+3" ≡ false)
    × (is_upgradable releases "1+7" "2" ≡ true)
    × (is_upgradable releases "1" "?" ≡ true)
unfolding is_upgradable is_version_upgradable atoi
is_upgradable_test = (refl, refl, refl, refl)

newer : is_version_upgradable releases (release 1 "3" "1+3") (release 1 "7" "1+7") ≡ true
unfolding is_version_upgradable atoi
newer = refl

older : is_version_upgradable releases (release 1 "7" "1+7") (release 1 "3" "1+3") ≡ false
unfolding is_version_upgradable atoi
older = refl

oldest : is_version_upgradable releases (release 1 "3" "1+3") (release 1 "" "1") ≡ false
unfolding is_version_upgradable atoi
oldest = refl

IsNumeric-3 : IsNumeric releases (release 1 "3" "1+3")
unfolding atoi
IsNumeric-3 = inr (pos 3, refl)

IsNumeric-7 : IsNumeric releases (release 1 "7" "1+7")
unfolding atoi
IsNumeric-7 = inr (pos 7, refl)
