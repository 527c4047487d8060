-- ===== src/Listing/Fetch.antt =====
-- The calls of a lister of pkg/list/lister.go: fetchRepoAndInstalled and the two lists.
use glasskube.Base.{
  String, Bool, true, false, not, ◌&&◌, ◌||◌, Option, none, some, List, [], ◌∷◌, ◌++◌, str_eq,
  Result, ok, err, if◌then◌else◌, is_empty,
}
use glasskube.Assoc.{get, put, keys, collect, string_key}
use glasskube.Manifest.{PackageManifest}
use glasskube.Manager.Types.{Faults, fault}
use glasskube.Repo.Types.{PackageRepoIndexItem, MetaIndexItem}
use glasskube.Controller.Types.{ReconciledPackage}
use glasskube.Controller.Conditions.{ConditionApi}
use glasskube.Listing.Status.{get_status_or_pending}
use glasskube.Listing.Lister.{
  ListedInfo, PackageWithStatus, PackagesWithStatus, ListOptions, Lister, ListFault, index_failed,
  repo_index_failed, cluster_packages_failed, packages_failed, package_infos_failed, ListClients,
  Listed, cluster_package_should_be_included, package_should_be_included, results,
}

-- The map that repoIndexToMetaIndex fills.
unfoldable pub index_map_of :
    String
    → List PackageRepoIndexItem
    → List (String × MetaIndexItem)
    → List (String × MetaIndexItem)
index_map_of repo [] m = m
index_map_of repo (item ∷ items) m =
    index_map_of repo items (put m item.name (record { item = item; repos = repo ∷ [] }))

abbrev pub item_under : Option MetaIndexItem → List MetaIndexItem
item_under none = []
item_under (some item) = item ∷ []

-- repoIndexToMetaIndex; `sort_names` is the slices.Sort of maputils.KeysSorted.
unfoldable pub repo_index_to_meta_index :
    (List String → List String) → String → List PackageRepoIndexItem → List MetaIndexItem
unfolding index_map_of
repo_index_to_meta_index sort_names repo items =
    let m = index_map_of repo items [] in
    collect (λ name. item_under (get m name)) (sort_names (keys m))

-- What a call gets, or the empty list and its error.
abbrev pub answer :
    {A : Type 0} → (String → ListFault) → Result String (List A) → List A × List ListFault
answer f (ok xs) = (xs, [])
answer f (err e) = ([], f e ∷ [])

-- A call that is made only if it is asked for.
abbrev pub asked :
    {A : Type 0} → Bool → (String → ListFault) → Result String (List A) → List A × List ListFault
asked false f r = ([], [])
asked true f r = answer f r

module _ {S : Type 0} (sort_names : List String → List String) (clients : ListClients S) where
  abbrev pub from_meta_index :
      Result String (List MetaIndexItem × Faults) → List MetaIndexItem × List ListFault
  from_meta_index (err e) = ([], index_failed (fault e) ∷ [])
  from_meta_index (ok (items, [])) = (items, [])
  from_meta_index (ok (items, e ∷ es)) = (items, index_failed (e ∷ es) ∷ [])

  abbrev pub from_repo_index :
      String → Result String (List PackageRepoIndexItem) → List MetaIndexItem × List ListFault
  unfolding repo_index_to_meta_index
  from_repo_index repo (err e) = ([], repo_index_failed repo e ∷ [])
  from_repo_index repo (ok items) = (repo_index_to_meta_index sort_names repo items, [])

  -- fetchMetaIndex
  unfoldable pub fetch_index : ListOptions → List MetaIndexItem × List ListFault
  unfolding repo_index_to_meta_index
  fetch_index options =
      if str_eq options.repository ""
      then from_meta_index clients.meta_index
      else from_repo_index options.repository (clients.repo_index options.repository)

  abbrev pub cached : Option (List MetaIndexItem) → Bool → Option (List MetaIndexItem)
  cached index false = none
  cached index true = index

  abbrev pub fetch_or :
      Lister
      → ListOptions
      → Option (List MetaIndexItem)
      → Lister × List MetaIndexItem × List ListFault
  unfolding fetch_index
  fetch_or l options (some index) = (l, index, [])
  fetch_or l options none =
      let (index, errs) = fetch_index options in
      (record l { cached_index = some index }, index, errs)

  -- The index of a call: that of the cache, or one that is fetched and kept.
  unfoldable pub index_of_call : Lister → ListOptions → Lister × List MetaIndexItem × List ListFault
  unfolding fetch_index
  index_of_call l options = fetch_or l options (cached l.cached_index l.use_cache)

  -- fetchRepoAndInstalled
  unfoldable pub fetch_repo_and_installed :
      (String → String)
      → Lister
      → ListOptions
      → Bool
      → Bool
      → Lister × List (Listed S) × List ListFault
  unfolding index_of_call results
  fetch_repo_and_installed escape l options include_clusters include_packages =
      let (l', index, repo_err) = index_of_call l options in
      let (clusters, cluster_err) =
        asked include_clusters cluster_packages_failed clients.cluster_packages in
      let (pkgs, pkg_err) =
        asked include_packages packages_failed (clients.packages options.namespace) in
      let (infos, info_err) =
        asked options.include_package_infos package_infos_failed clients.package_infos in
      let client_err = cluster_err ++ (pkg_err ++ info_err) in
      (
        l',
        if not (is_empty client_err)
            then []
            else results escape infos include_clusters include_packages clusters pkgs index,
        repo_err ++ client_err,
      )

module _ {S : Type 0} (conditions : ConditionApi S) where
  abbrev pub manifest_of_info : Option ListedInfo → Option PackageManifest
  manifest_of_info none = none
  manifest_of_info (some info) = info.manifest

  unfoldable pub with_status : Listed S → Option (ReconciledPackage S) → PackageWithStatus S
  unfolding get_status_or_pending
  with_status item pkg = record {
    meta = item.index_item;
    status = get_status_or_pending conditions pkg;
    package_of = pkg;
    installed_manifest = manifest_of_info item.package_info;
  }

  -- The loop of GetClusterPackagesWithStatus.
  unfoldable pub cluster_packages_of : ListOptions → List (Listed S) → List (PackageWithStatus S)
  unfolding cluster_package_should_be_included with_status
  cluster_packages_of options [] = []
  cluster_packages_of options (item ∷ items) =
      let rest = cluster_packages_of options items in
      if cluster_package_should_be_included item options
      then with_status item item.cluster_package ∷ rest
      else rest

  -- The inner loop of GetPackagesWithStatus.
  unfoldable pub included_of :
      ListOptions → Listed S → List (ReconciledPackage S) → List (PackageWithStatus S)
  unfolding package_should_be_included with_status
  included_of options item [] = []
  included_of options item (pkg ∷ pkgs) =
      let rest = included_of options item pkgs in
      if package_should_be_included item pkg options
      then with_status item (some pkg) ∷ rest
      else rest

  -- What GetPackagesWithStatus lists: an item with packages, or one that the options let through.
  abbrev pub is_listed : ListOptions → Listed S → List (PackageWithStatus S) → Bool
  is_listed options item ls =
      let name = item.index_item.item.name in
      not (is_empty ls)
      || not options.only_installed
        && (not options.only_outdated
            && (str_eq options.namespace ""
                && (str_eq name options.package_name || str_eq options.package_name "")))

  -- The loop of GetPackagesWithStatus.
  unfoldable pub packages_of : ListOptions → List (Listed S) → List (PackagesWithStatus S)
  unfolding included_of
  packages_of options [] = []
  packages_of options (item ∷ items) =
      let ls = included_of options item item.packages in
      let rest = packages_of options items in
      if is_listed options item ls
      then record { meta = item.index_item; packages = ls } ∷ rest
      else rest

  module _ (escape : String → String) (sort_names : List String → List String)
      (clients : ListClients S) where
    -- GetClusterPackagesWithStatus
    unfoldable pub get_cluster_packages_with_status :
        Lister → ListOptions → Lister × List (PackageWithStatus S) × List ListFault
    unfolding fetch_repo_and_installed cluster_packages_of
    get_cluster_packages_with_status l options =
        let (l', index, errs) =
          fetch_repo_and_installed sort_names clients escape l options true false in
        (l', cluster_packages_of options index, errs)

    -- GetPackagesWithStatus
    unfoldable pub get_packages_with_status :
        Lister → ListOptions → Lister × List (PackagesWithStatus S) × List ListFault
    unfolding fetch_repo_and_installed packages_of
    get_packages_with_status l options =
        let (l', index, errs) =
          fetch_repo_and_installed sort_names clients escape l options false true in
        (l', packages_of options index, errs)
