-- ===== src/Listing/Lister.antt =====
-- pkg/list/lister.go and result.go. The goroutines of one call each write variables of their own, so
-- they are run one after the other.
use glasskube.Base.{
  String, Bool, true, false, not, ◌&&◌, ◌||◌, Option, none, some, List, [], ◌∷◌, ◌++◌, str_eq,
  Result, if◌then◌else◌, is_some,
}
use glasskube.Assoc.{string_key}
use glasskube.Manifest.{PackageManifest, is_cluster, is_namespaced}
use glasskube.Manager.Types.{Faults}
use glasskube.Repo.Types.{PackageRepoIndexItem, MetaIndexItem}
use glasskube.Controller.Types.{ReconciledPackage}
use glasskube.Controller.Finalize.{package_info_name}
use glasskube.Listing.Status.{PackageStatus}

-- A PackageInfo: its name, and the manifest of its status.
pub record ListedInfo : Type 0 where
  pub name : String
  pub manifest : Option PackageManifest

pub record PackageWithStatus (S : Type 0) : Type 0 where
  pub meta : MetaIndexItem
  pub status : Option PackageStatus
  pub package_of : Option (ReconciledPackage S)
  pub installed_manifest : Option PackageManifest

pub record PackagesWithStatus (S : Type 0) : Type 0 where
  pub meta : MetaIndexItem
  pub packages : List (PackageWithStatus S)

pub record ListOptions : Type 0 where
  pub include_package_infos : Bool
  pub only_installed : Bool
  pub only_outdated : Bool
  pub repository : String
  pub package_name : String
  pub namespace : String

-- useCache and cachedIndex of a lister
pub record Lister : Type 0 where
  pub use_cache : Bool
  pub cached_index : Option (List MetaIndexItem)

-- The errors that fetchRepoAndInstalled combines; the empty list is nil.
pub data ListFault : Type 0 where
  index_failed : Faults → ListFault
  repo_index_failed : String → String → ListFault
  cluster_packages_failed packages_failed package_infos_failed : String → ListFault

-- The clients of the lister. `meta_index` is the answer of FetchMetaIndex, with its error.
pub record ListClients (S : Type 0) : Type 0 where
  pub meta_index : Result String (List MetaIndexItem × Faults)
  pub repo_index : String → Result String (List PackageRepoIndexItem)
  pub cluster_packages : Result String (List (ReconciledPackage S))
  pub packages : String → Result String (List (ReconciledPackage S))
  pub package_infos : Result String (List ListedInfo)

-- `result`, without the repositories, which nothing writes.
pub record Listed (S : Type 0) : Type 0 where
  pub index_item : MetaIndexItem
  pub cluster_package : Option (ReconciledPackage S)
  pub packages : List (ReconciledPackage S)
  pub package_info : Option ListedInfo

-- result.ClusterPackageInstalled
unfoldable pub cluster_package_installed : {S : Type 0} → Listed S → Bool
cluster_package_installed item = is_some item.cluster_package

abbrev pub differs_from : {S : Type 0} → String → Option (ReconciledPackage S) → Bool
differs_from version none = false
differs_from version (some pkg) = not (str_eq pkg.package_info.version version)

-- result.ClusterPackageOutdated, of an item with its index item.
unfoldable pub cluster_package_outdated : {S : Type 0} → Listed S → Bool
cluster_package_outdated item =
    differs_from item.index_item.item.latest_version item.cluster_package

-- clusterPackageShouldBeIncluded
unfoldable pub cluster_package_should_be_included : {S : Type 0} → Listed S → ListOptions → Bool
unfolding cluster_package_installed cluster_package_outdated
cluster_package_should_be_included item options = not (
    options.only_installed && not (cluster_package_installed item)
    || (options.only_outdated && not (cluster_package_outdated item)))

-- packageShouldBeIncluded, of a package that is not nil.
unfoldable pub package_should_be_included :
    {S : Type 0} → Listed S → ReconciledPackage S → ListOptions → Bool
package_should_be_included item pkg options =
    if not (str_eq options.package_name "")
      && not (str_eq pkg.package_info.name options.package_name)
    then false
    else if options.only_outdated
        && str_eq pkg.package_info.version item.index_item.item.latest_version
    then false
    else true

-- The first PackageInfo of the name.
unfoldable pub info_named : List ListedInfo → String → Option ListedInfo
info_named [] name = none
info_named (info ∷ infos) name = if str_eq info.name name then some info else info_named infos name

module _ {S : Type 0} (escape : String → String) (infos : List ListedInfo) where
  abbrev pub with_package_info : Listed S → Option ListedInfo → Listed S
  with_package_info res none = res
  with_package_info res (some info) = record res { package_info = some info }

  -- setPackageInfo
  unfoldable pub set_package_info : Listed S → ReconciledPackage S → Listed S
  unfolding info_named
  set_package_info res pkg =
      with_package_info res (info_named infos (package_info_name escape pkg.package_info))

  -- The loop over the cluster packages, which stops at the first of the name.
  unfoldable pub with_cluster_package : List (ReconciledPackage S) → Listed S → Listed S
  unfolding set_package_info
  with_cluster_package [] res = res
  with_cluster_package (pkg ∷ pkgs) res =
      if str_eq res.index_item.item.name pkg.name
      then set_package_info (record res { cluster_package = some pkg }) pkg
      else with_cluster_package pkgs res

  -- The loop over the packages, which takes all of the name.
  unfoldable pub with_packages : List (ReconciledPackage S) → Listed S → Listed S
  unfolding set_package_info
  with_packages [] res = res
  with_packages (pkg ∷ pkgs) res = with_packages pkgs (
      if str_eq res.index_item.item.name pkg.package_info.name
      then set_package_info (record res { packages = res.packages ++ pkg ∷ [] }) pkg
      else res)

  abbrev pub new_result : MetaIndexItem → Listed S
  new_result item = record {
    index_item = item;
    cluster_package = none;
    packages = [];
    package_info = none;
  }

  -- The loop over the index, with the bits of typeOpts and what was fetched for them.
  unfoldable pub results :
      Bool
      → Bool
      → List (ReconciledPackage S)
      → List (ReconciledPackage S)
      → List MetaIndexItem
      → List (Listed S)
  unfolding with_cluster_package with_packages
  results include_clusters include_packages clusters pkgs [] = []
  results include_clusters include_packages clusters pkgs (item ∷ items) =
      let rest = results include_clusters include_packages clusters pkgs items in
      if is_cluster item.item.scope && include_clusters
      then with_cluster_package clusters (new_result item) ∷ rest
      else if is_namespaced item.item.scope && include_packages
      then with_packages pkgs (new_result item) ∷ rest
      else rest
