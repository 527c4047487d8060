-- ===== src/Repo/Samples.antt =====
-- Two repositories that have `shop`, and one that cannot be reached.
use glasskube.Base.{
  String, ◌≡◌, refl, true, ◌↔◌, none, List, [], ◌∷◌, Result, ok, err, str_eq, if◌then◌else◌,
}
use glasskube.Assoc.{keys, get, put, collect}
use glasskube.Semver.{is_upgradable, is_version_upgradable}
use glasskube.Semver.Samples.{releases}
use glasskube.Strconv.{atoi}
use glasskube.Manifest.{empty_manifest}
use glasskube.Manager.Types.{Faults, is_partial, is_complete, panicked, returned, fault}
use glasskube.Repo.Types.{PackageRepoIndexItem, MetaIndexItem, PackageRepository, RepoClients}
use glasskube.Repo.Meta.{get_repos_for_package, get_latest_version, fetch_meta_index}
use glasskube.Repo.Adapter.{get_versions, get_manifest}
use glasskube.Repo.MetaTarget.{HasTheRepos, HasTheOffers, fetch_meta_index_exact}
use glasskube.Repo.Panics.{IsAmbiguous, get_versions-panics_iff}

abbrev repository : String → PackageRepository
repository name = record { name = name; is_default = str_eq name "main" }

abbrev package_item : String → String → PackageRepoIndexItem
package_item name version = record { name = name; latest_version = version; scope = none }

abbrev index_of : PackageRepository → Result String (List PackageRepoIndexItem)
index_of repo =
    if str_eq repo.name "down"
    then err "connection refused"
    else if str_eq repo.name "main"
    then ok (package_item "shop" "1" ∷ package_item "cart" "1" ∷ [])
    else ok (package_item "shop" "2" ∷ [])

abbrev repositories : List PackageRepository
repositories = repository "down" ∷ repository "main" ∷ repository "other" ∷ []

abbrev pub clients : RepoClients
clients = record {
  list_package_repositories = ok repositories;
  fetch_package_repo_index = index_of;
  fetch_package_index = λ repo name.
      ok (record { versions = []; latest_version = if str_eq repo.name "other" then "2" else "1" });
  fetch_package_manifest = λ repo name version. ok empty_manifest;
  fetch_package_manifest_by_name = λ repo name version. ok empty_manifest;
}

two_have_it : (get_repos_for_package clients "shop").0 ≡ repository "main" ∷ repository "other" ∷ []
unfolding get_repos_for_package
two_have_it = refl

one_lacks_it : (get_repos_for_package clients "cart").0 ≡ repository "main" ∷ []
unfolding get_repos_for_package
one_lacks_it = refl

latest : get_latest_version releases clients "shop" ≡ ok "2"
unfolding get_latest_version is_upgradable is_version_upgradable atoi
latest = refl

-- The entry of `shop` is that of the repository that is not the default, with the latest version.
joined :
    fetch_meta_index releases clients (λ repos. repos) (λ names. names)
    ≡ ok (
      record { item = package_item "shop" "2"; repos = "main" ∷ "other" ∷ [] }
          ∷ record { item = package_item "cart" "1"; repos = "main" ∷ [] }
          ∷ [],
      fault "connection refused",
    )
unfolding fetch_meta_index is_upgradable is_version_upgradable atoi get put keys collect
joined = refl

fetch_meta_index_exact_example :
    (items : List MetaIndexItem) × (errs : Faults) × (fetch_meta_index releases clients
        (λ repos. repos)
        (λ names. names)
      ≡ ok (items, errs))
    × HasTheRepos clients repositories items
    × HasTheOffers clients repositories items
fetch_meta_index_exact_example =
    fetch_meta_index_exact releases clients (λ repos. repos) (λ names. names) {repos = repositories}
      (λ xs x. (λ m. m, λ m. m)) (λ xs x. (λ m. m, λ m. m)) refl

get_versions-panics_iff_example :
    ((get_versions clients "shop" ≡ panicked) ↔ IsAmbiguous (get_repos_for_package clients "shop"))
    × ((get_manifest clients "shop" "1" ≡ panicked)
        ↔ IsAmbiguous (get_repos_for_package clients "shop"))
get_versions-panics_iff_example = get_versions-panics_iff clients "shop" "1"

adapter_panics :
    (get_versions clients "shop" ≡ panicked)
    × (get_versions clients "cart"
        ≡ returned [] (record { is_partial = true; message = "partial" } ∷ []))
unfolding get_versions is_partial is_complete get_repos_for_package
adapter_panics = (refl, refl)
