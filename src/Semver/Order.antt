-- ===== src/Semver/Order.antt =====
-- The order that `IsVersionUpgradable` of internal/semver/compare.go puts on versions.
use glasskube.Base.{String, ◌≡◌, true, false, some, ◌⊎◌, inl, inr, eq_iff, arith, Result-cases}
use glasskube.Base.Int.{ℤ}
use glasskube.Strconv.{atoi}
use glasskube.Semver.{
  Semver, IsLawful, is_upgradable_metadata, is_version_upgradable, is_upgradable,
}

-- Metadata that the program reads as a number, or none at all.
abbrev pub IsNumeric : {V C : Type 0} → Semver V C → V → Type 0
IsNumeric lib v = (lib.metadata v ≡ "") ⊎ ((i : ℤ) × (atoi (lib.metadata v) ≡ some i))

module _ {V C : Type 0} (lib : Semver V C) where
  not_greater_self : IsLawful lib → (v : V) → lib.greater_than v v ≡ false
  not_greater_self law v = ground (arith, law.greater_asymm v v)

  metadata_irrefl : (v : V) → is_upgradable_metadata lib v v ≡ false
  unfolding is_upgradable_metadata
  metadata_irrefl v = ground (arith, eq_iff (lib.metadata v) (lib.metadata v))

  -- With a lawful library, no version string, parsed or not, is upgradable to itself.
  pub is_upgradable_self : IsLawful lib → (s : String) → is_upgradable lib s s ≡ false
  unfolding is_upgradable is_version_upgradable
  is_upgradable_self law s = elim (Result-cases (lib.new_version s)) [
    | inl (v, e) ↦ ground (arith, not_greater_self law v, metadata_irrefl v)
    | inr (e, p) ↦ ground (arith, eq_iff s s)
  ]

  metadata_asymm :
      (a b : V)
      → IsNumeric lib a
      → IsNumeric lib b
      → is_upgradable_metadata lib a b ≡ true
      → is_upgradable_metadata lib b a ≡ false
  unfolding is_upgradable_metadata
  metadata_asymm a b na nb h = ground (
    arith,
    eq_iff (lib.metadata a) (lib.metadata b),
    eq_iff (lib.metadata b) (lib.metadata a),
    eq_iff (lib.metadata a) "",
    eq_iff (lib.metadata b) "",
  )

  metadata_negative_trans :
      (a b c : V)
      → IsNumeric lib a
      → IsNumeric lib b
      → IsNumeric lib c
      → is_upgradable_metadata lib b a ≡ false
      → is_upgradable_metadata lib c b ≡ false
      → is_upgradable_metadata lib c a ≡ false
  unfolding is_upgradable_metadata
  metadata_negative_trans a b c na nb nc h k = ground (
    arith,
    eq_iff (lib.metadata a) (lib.metadata b),
    eq_iff (lib.metadata b) (lib.metadata c),
    eq_iff (lib.metadata a) (lib.metadata c),
    eq_iff (lib.metadata a) "",
    eq_iff (lib.metadata b) "",
    eq_iff (lib.metadata c) "",
  )

  -- With a lawful library, of two versions whose metadata are numbers or empty, at most one is an
  -- upgrade of the other.
  pub is_version_upgradable_asymm :
      IsLawful lib
      → (a b : V) → IsNumeric lib a
      → IsNumeric lib b
      → is_version_upgradable lib a b ≡ true
      → is_version_upgradable lib b a ≡ false
  unfolding is_version_upgradable
  is_version_upgradable_asymm law a b na nb h = ground (
    arith,
    law.greater_asymm b a,
    law.greater_asymm a b,
    law.equal_eq a b,
    law.equal_eq b a,
    metadata_asymm a b na nb,
  )

  -- With a lawful library, being no upgrade is transitive on versions whose metadata are numbers or
  -- empty.
  pub is_version_upgradable_negative_trans :
      IsLawful lib
      → (a b c : V) → IsNumeric lib a
      → IsNumeric lib b
      → IsNumeric lib c
      → is_version_upgradable lib b a ≡ false
      → is_version_upgradable lib c b ≡ false
      → is_version_upgradable lib c a ≡ false
  unfolding is_version_upgradable
  is_version_upgradable_negative_trans law a b c na nb nc h k = ground (
    arith,
    law.equal_eq a b,
    law.equal_eq b c,
    law.equal_eq a c,
    law.not_greater_trans a b c,
    law.not_greater_trans c b a,
    law.not_greater_trans b c a,
    law.not_greater_trans c a b,
    law.not_greater_trans b a c,
    law.not_greater_trans a c b,
    metadata_negative_trans a b c na nb nc,
  )
