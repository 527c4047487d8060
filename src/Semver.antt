-- ===== src/Semver.antt =====
-- internal/semver/compare.go and internal/semver/validate.go. The library
-- github.com/Masterminds/semver/v3 is the parameter `Semver`: its two types and what the program
-- calls. The laws that its documentation promises are `IsLawful`, a hypothesis where it is used.
pub mod Order
pub mod Samples
use glasskube.Base.{
  String, ◌≡◌, refl, Bool, true, false, not, ◌&&◌, ◌||◌, Option, none, some, List, [], ◌∷◌, str_eq,
  Result, ok, err, if◌then◌else◌, is_empty,
}
use glasskube.Base.Int.{ℤ, ltb_ℤ}
use glasskube.Strconv.{atoi}

-- `V` is *semver.Version and `C` is *semver.Constraints.
pub record Semver (V C : Type 0) : Type 0 where
  -- NewVersion(s)
  pub new_version : String → Result String V
  -- v.GreaterThan(o)
  pub greater_than : V → V → Bool
  -- v.Equal(o)
  pub equal : V → V → Bool
  -- v.Metadata()
  pub metadata : V → String
  -- v.Original()
  pub original : V → String
  -- NewConstraint(s)
  pub new_constraint : String → Result String C
  -- the errors of c.Validate(v)
  pub violations : C → V → List String
  -- c.String()
  pub constraint_string : C → String

-- Precedence is a total order of versions up to `equal`, and metadata has no part in it.
pub record IsLawful {V C : Type 0} (lib : Semver V C) : Type 0 where
  pub greater_asymm : (a b : V) → lib.greater_than a b ≡ true → lib.greater_than b a ≡ false
  pub not_greater_trans :
      (a b c : V)
      → lib.greater_than a b ≡ false
      → lib.greater_than b c ≡ false
      → lib.greater_than a c ≡ false
  pub equal_eq :
      (a b : V) → lib.equal a b ≡ (not (lib.greater_than a b) && not (lib.greater_than b a))

-- The fallback of `isUpgradableMetadata` for metadata of which one is no number.
abbrev metadata_numbers : Option ℤ → Option ℤ → String → String → Bool
metadata_numbers none installed installed_meta desired_meta =
    not (str_eq installed_meta desired_meta)
metadata_numbers (some d) none installed_meta desired_meta =
    not (str_eq installed_meta desired_meta)
metadata_numbers (some d) (some i) installed_meta desired_meta = ltb_ℤ i d

module _ {V C : Type 0} (lib : Semver V C) where
  unfoldable pub is_upgradable_metadata : V → V → Bool
  is_upgradable_metadata installed desired =
      let desired_meta = lib.metadata desired in
      let installed_meta = lib.metadata installed in
      if str_eq desired_meta installed_meta
      then false
      else if str_eq desired_meta ""
      then false
      else if str_eq installed_meta ""
      then true
      else metadata_numbers (atoi desired_meta) (atoi installed_meta) installed_meta desired_meta

  unfoldable pub is_version_upgradable : V → V → Bool
  unfolding is_upgradable_metadata
  is_version_upgradable installed desired =
      lib.greater_than desired installed
      || (lib.equal desired installed && is_upgradable_metadata installed desired)

  -- The error list of ValidateVersionConstraint, nil where it is empty.
  unfoldable pub validate_version_constraint : V → C → List String
  validate_version_constraint version constraint = lib.violations constraint version

  abbrev parsed_upgradable : Result String V → Result String V → String → String → Bool
  parsed_upgradable (err e) desired i d = not (str_eq i d)
  parsed_upgradable (ok v) (err e) i d = not (str_eq i d)
  parsed_upgradable (ok v) (ok w) i d = is_version_upgradable v w

  -- IsUpgradable
  unfoldable pub is_upgradable : String → String → Bool
  is_upgradable installed desired =
      parsed_upgradable (lib.new_version installed) (lib.new_version desired) installed desired
