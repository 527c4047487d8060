-- ===== src/Update/Upgrades.antt =====
-- A transaction only ever upgrades.
use glasskube.Base.{
  ℕ, ◌≡◌, refl, Bool, true, ◌⊎◌, inl, inr, List, [], ◌∷◌, ◌++◌, Result, ok, err, ◌>>=◌, Bool-cases,
  Option-cases, is_empty, All,
}
use glasskube.Semver.{Semver, is_upgradable}
use glasskube.Manager.Types.{
  RepoAdapter, InstalledPackage, PackageClient, Requirement, Conflict, ValidationResult,
}
use glasskube.Repo.Types.{PackageRepoIndexItem}
use glasskube.Update.Transaction.{
  UpdateTransactionItem, UpdateTransaction, RepoClient, UpdateError, index_item, requested,
  validated, add_item, prepare_found, prepare_indexed, prepare_package, prepare_from, prepare,
}

All-append :
    {A : Type 0} (P : A → Type 0) (xs : List A) (x : A) → All P xs → P x → All P (xs ++ x ∷ [])
All-append P [] x all p = (p, tt)
All-append P (y ∷ ys) x (q, all) p = (q, All-append P ys x all p)

module _ {V C : Type 0} (lib : Semver V C) where
  -- The item has no version, or one to which the installed version is upgradable.
  abbrev pub IsUpgrade : UpdateTransactionItem → Type 0
  IsUpgrade item =
      (item.version ≡ "") ⊎ (is_upgradable lib item.package_of.version item.version ≡ true)

  abbrev pub IsConflictingUpgrade : UpdateTransactionItem × List (Conflict V C) → Type 0
  IsConflictingUpgrade (item, conflicts) =
      is_upgradable lib item.package_of.version item.version ≡ true

  pub record OnlyUpgrades (tx : UpdateTransaction V C) : Type 0 where
    pub of_items : All IsUpgrade tx.items
    pub of_conflict_items : All IsConflictingUpgrade tx.conflict_items

  abbrev Holds : Result (UpdateError V C) (UpdateTransaction V C) → Type 0
  Holds (ok tx) = OnlyUpgrades tx
  Holds (err e) = Unit

  Holds-bind :
      {A : Type 0} (r : Result (UpdateError V C) A)
      (f : A → Result (UpdateError V C) (UpdateTransaction V C))
      → ((a : A) → r ≡ ok a → Holds (f a))
      → Holds (r >>= f)
  Holds-bind (ok a) f each = each a refl
  Holds-bind (err e) f each = tt

  Holds-ok :
      (r : Result (UpdateError V C) (UpdateTransaction V C)) (tx : UpdateTransaction V C)
      → Holds r
      → r ≡ ok tx
      → OnlyUpgrades tx
  Holds-ok (ok s) tx holds e = let same : s ≡ tx = cc in rw (← same) holds
  Holds-ok (err x) tx holds e = cc

  module _ (client : PackageClient) (repo : RepoAdapter)
      (sort : List Requirement → List Requirement) (repo_client : RepoClient) (fuel : ℕ) where
    add_item-OnlyUpgrades :
        (item : UpdateTransactionItem) (tx : UpdateTransaction V C) (r : ValidationResult V C)
        → OnlyUpgrades tx
        → is_upgradable lib item.package_of.version item.version ≡ true
        → OnlyUpgrades (add_item lib client repo sort repo_client fuel item tx r)
    unfolding add_item
    add_item-OnlyUpgrades item tx r only up = elim (Bool-cases (is_empty r.conflicts)) [
      | inl fine ↦ rw fine (record {
        of_items = All-append IsUpgrade tx.items item only.of_items (inr up);
        of_conflict_items = only.of_conflict_items;
      })
      | inr bad ↦ rw bad (record {
        of_items = only.of_items;
        of_conflict_items =
            All-append IsConflictingUpgrade tx.conflict_items (item, r.conflicts)
              only.of_conflict_items up;
      })
    ]

    prepare_found-Holds :
        (explicit_request : Bool) (pkg : InstalledPackage) (found : PackageRepoIndexItem)
        (tx : UpdateTransaction V C)
        → OnlyUpgrades tx
        → Holds (prepare_found lib client repo sort repo_client fuel explicit_request pkg found tx)
    unfolding prepare_found
    prepare_found-Holds explicit_request pkg found tx only =
        elim (Bool-cases (is_upgradable lib pkg.version found.latest_version)) [
          | inl up ↦ rw up (
              Holds-bind (validated lib client repo sort repo_client fuel pkg found.latest_version)
                _ λ r at_r. add_item-OnlyUpgrades _ tx r only up)
          | inr not_up ↦ rw not_up (elim (Bool-cases explicit_request) [
            | inl e ↦ rw e (record {
              of_items = All-append IsUpgrade tx.items _ only.of_items (inl refl);
              of_conflict_items = only.of_conflict_items;
            })
            | inr e ↦ rw e only
          ])
        ]

    prepare_package-Holds :
        (explicit_request : Bool) (pkg : InstalledPackage) (tx : UpdateTransaction V C)
        → OnlyUpgrades tx
        → Holds (prepare_package lib client repo sort repo_client fuel explicit_request pkg tx)
    unfolding prepare_package prepare_indexed
    prepare_package-Holds explicit_request pkg tx only =
        Holds-bind (requested lib client repo sort repo_client fuel (repo_client.fetch_index pkg)) _
          λ index at_index. elim (Option-cases (index_item index pkg.package_name)) [
            | inl absent ↦ rw absent tt
            | inr (found, at_found) ↦
                rw at_found (prepare_found-Holds explicit_request pkg found tx only)
          ]

    prepare_from-Holds :
        (explicit_request : Bool) (pkgs : List InstalledPackage) (tx : UpdateTransaction V C)
        → OnlyUpgrades tx
        → Holds (prepare_from lib client repo sort repo_client fuel explicit_request pkgs tx)
    unfolding prepare_from
    prepare_from-Holds explicit_request [] tx only = only
    prepare_from-Holds explicit_request (pkg ∷ pkgs) tx only =
        let first = prepare_package lib client repo sort repo_client fuel explicit_request pkg tx in
        Holds-bind first _ λ s at_s.
          prepare_from-Holds explicit_request pkgs s
            (Holds-ok first s (prepare_package-Holds explicit_request pkg tx only) at_s)

    -- Where prepare returns a transaction, each of its items has no version or one to which the
    -- installed version is upgradable, and each of its conflicting items has such a version.
    pub prepare-OnlyUpgrades :
        (pkgs : List InstalledPackage) (explicit_request : Bool) (tx : UpdateTransaction V C)
        → prepare lib client repo sort repo_client fuel pkgs explicit_request ≡ ok tx
        → OnlyUpgrades tx
    unfolding prepare
    prepare-OnlyUpgrades pkgs explicit_request tx returned =
        Holds-ok _ tx
          (prepare_from-Holds explicit_request pkgs _
            (record { of_items = tt; of_conflict_items = tt }))
          returned
