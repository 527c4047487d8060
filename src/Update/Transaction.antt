-- ===== src/Update/Transaction.antt =====
-- The transactions that PrepareForVersion and prepare make. The clients of repositories are
-- parameters; the status writer is left out.
use glasskube.Base.{
  ℕ, String, Bool, false, not, ◌&&◌, ◌||◌, Option, none, some, List, [], ◌∷◌, ◌++◌, str_eq, Result,
  ok, err, ◌>>=◌, if◌then◌else◌, is_empty, is_some,
}
use glasskube.Semver.{Semver, is_upgradable}
use glasskube.Manifest.{PackageManifest}
use glasskube.Manager.Types.{
  Stop, Run, RepoAdapter, InstalledPackage, PackageClient, Requirement, Conflict, ValidationResult,
}
use glasskube.Manager.Verdict.{validate_package}
use glasskube.Repo.Types.{PackageRepoIndexItem}

pub record UpdateTransactionItem : Type 0 where
  pub package_of : InstalledPackage
  pub version : String

pub record UpdateTransaction (V C : Type 0) : Type 0 where
  pub items : List UpdateTransactionItem
  pub conflict_items : List (UpdateTransactionItem × List (Conflict V C))
  pub requirements : List Requirement

-- updateTransactionItem.UpdateRequired
unfoldable pub update_required : UpdateTransactionItem → Bool
update_required item = not (str_eq item.version "")

unfoldable pub has_update : List UpdateTransactionItem → Bool
unfolding update_required
has_update [] = false
has_update (item ∷ items) = update_required item || has_update items

-- UpdateTransaction.IsEmpty
unfoldable pub is_empty_transaction : {V C : Type 0} → UpdateTransaction V C → Bool
unfolding has_update
is_empty_transaction tx = not (has_update tx.items)

-- The client ForPackage(pkg): the index of its repository, and the manifest of a version.
pub record RepoClient : Type 0 where
  pub fetch_index : InstalledPackage → Result String (List PackageRepoIndexItem)
  pub fetch_manifest : InstalledPackage → String → Result String PackageManifest

pub data UpdateError (V C : Type 0) : Type 0 where
  not_upgradable : UpdateError V C
  request_failed : String → UpdateError V C
  manager_error : Stop V C → UpdateError V C
  not_in_index : String → UpdateError V C

-- The first index item of the name, at which the inner loop of `prepare` stops.
unfoldable pub index_item : List PackageRepoIndexItem → String → Option PackageRepoIndexItem
index_item [] name = none
index_item (item ∷ items) name = if str_eq item.name name then some item else index_item items name

-- Go's `==` on Requirement compares the pointers to the metadata, and every Validate makes new ones.
unfoldable pub same_requirement : Requirement → Requirement → Bool
same_requirement a b =
    not (is_some a.component_metadata)
    && (not (is_some b.component_metadata)
        && (str_eq a.package_with_version.name b.package_with_version.name
            && (str_eq a.package_with_version.version b.package_with_version.version
                && ((a.transitive && b.transitive) || (not a.transitive && not b.transitive)))))

unfoldable pub requires : List Requirement → Requirement → Bool
unfolding same_requirement
requires [] req = false
requires (r ∷ rs) req = same_requirement r req || requires rs req

-- requirementsSet[req] = struct{}{}, for every requirement.
unfoldable pub add_requirements : List Requirement → List Requirement → List Requirement
unfolding requires
add_requirements set [] = set
add_requirements set (req ∷ reqs) =
    add_requirements (if requires set req then set else set ++ req ∷ []) reqs

module _ {V C : Type 0} (lib : Semver V C) (client : PackageClient) (repo : RepoAdapter)
    (sort : List Requirement → List Requirement) (repo_client : RepoClient) (fuel : ℕ) where
  abbrev pub Prepared : Type 0 → Type 0
  Prepared A = Result (UpdateError V C) A

  abbrev pub requested : {A : Type 0} → Result String A → Prepared A
  requested (ok a) = ok a
  requested (err e) = err (request_failed e)

  abbrev pub managed : {A : Type 0} → Run V C A → Prepared A
  managed (ok a) = ok a
  managed (err stop) = err (manager_error stop)

  -- The manifest of the version, and the verdict on it.
  unfoldable pub validated : InstalledPackage → String → Prepared (ValidationResult V C)
  validated pkg version = requested (repo_client.fetch_manifest pkg version) >>= λ manifest.
      managed
        (validate_package lib client repo sort fuel pkg.name pkg.namespace (some manifest) version)

  -- What a verdict adds to the transaction.
  unfoldable pub add_item :
      UpdateTransactionItem → UpdateTransaction V C → ValidationResult V C → UpdateTransaction V C
  unfolding add_requirements
  add_item item tx result =
      if is_empty result.conflicts
      then record tx {
        items = tx.items ++ item ∷ [];
        requirements = add_requirements tx.requirements result.requirements;
      }
      else record tx { conflict_items = tx.conflict_items ++ (item, result.conflicts) ∷ [] }

  abbrev empty_transaction : UpdateTransaction V C
  empty_transaction = record { items = []; conflict_items = []; requirements = [] }

  -- PrepareForVersion, which leaves the requirements empty.
  unfoldable pub prepare_for_version : InstalledPackage → String → Prepared (UpdateTransaction V C)
  unfolding validated add_item
  prepare_for_version pkg version =
      if is_upgradable lib pkg.version version
      then (validated pkg version >>= λ result.
          ok
            (record (add_item (record { package_of = pkg; version = version }) empty_transaction
              result) { requirements = [] }))
      else err not_upgradable

  -- The outer loop's round, once the item of the index is found.
  unfoldable pub prepare_found :
      Bool
      → InstalledPackage
      → PackageRepoIndexItem
      → UpdateTransaction V C
      → Prepared (UpdateTransaction V C)
  unfolding validated add_item
  prepare_found explicit_request pkg item tx =
      if is_upgradable lib pkg.version item.latest_version
      then (validated pkg item.latest_version >>= λ result.
          ok (add_item (record { package_of = pkg; version = item.latest_version }) tx result))
      else if explicit_request
      then ok (record tx { items = tx.items ++ record { package_of = pkg; version = "" } ∷ [] })
      else ok tx

  unfoldable pub prepare_indexed :
      Bool
      → InstalledPackage
      → UpdateTransaction V C
      → Option PackageRepoIndexItem
      → Prepared (UpdateTransaction V C)
  unfolding prepare_found
  prepare_indexed explicit_request pkg tx none = err (not_in_index pkg.package_name)
  prepare_indexed explicit_request pkg tx (some item) = prepare_found explicit_request pkg item tx

  unfoldable pub prepare_package :
      Bool → InstalledPackage → UpdateTransaction V C → Prepared (UpdateTransaction V C)
  unfolding index_item prepare_indexed
  prepare_package explicit_request pkg tx = requested (repo_client.fetch_index pkg) >>= λ index.
      prepare_indexed explicit_request pkg tx (index_item index pkg.package_name)

  unfoldable pub prepare_from :
      Bool → List InstalledPackage → UpdateTransaction V C → Prepared (UpdateTransaction V C)
  unfolding prepare_package
  prepare_from explicit_request [] tx = ok tx
  prepare_from explicit_request (pkg ∷ pkgs) tx =
      prepare_package explicit_request pkg tx >>= λ tx'. prepare_from explicit_request pkgs tx'

  -- updater.prepare
  unfoldable pub prepare : List InstalledPackage → Bool → Prepared (UpdateTransaction V C)
  unfolding prepare_from
  prepare packages_to_update explicit_request =
      prepare_from explicit_request packages_to_update empty_transaction
