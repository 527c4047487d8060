-- ===== src/Repo/Meta.antt =====
-- internal/repo/client/metaclient.go.
use glasskube.Base.{
  String, Bool, true, false, not, ◌||◌, Option, none, some, List, [], ◌∷◌, ◌++◌, str_eq, Result, ok,
  err, ◌>>=◌, if◌then◌else◌,
}
use glasskube.Assoc.{get, put, keys, collect, string_key}
use glasskube.Semver.{Semver, is_upgradable}
use glasskube.Manager.Types.{Faults, fault}
use glasskube.Repo.Types.{PackageRepoIndexItem, MetaIndexItem, PackageRepository, RepoClients}

abbrev pub reversed : {A : Type 0} → List A → List A
reversed [] = []
reversed (x ∷ xs) = reversed xs ++ x ∷ []

-- Whether an index has a package of the name.
unfoldable pub lists_package : List PackageRepoIndexItem → String → Bool
lists_package [] name = false
lists_package (item ∷ items) name = str_eq item.name name || lists_package items name

-- repoerror.Partial of a combined error
abbrev pub partial : Faults → Faults
partial errs = record { is_partial = true; message = "partial" } ∷ []

module _ (clients : RepoClients) where
  abbrev pub with_index :
      String
      → PackageRepository
      → Result String (List PackageRepoIndexItem)
      → List PackageRepository × Faults
      → List PackageRepository × Faults
  with_index name repo (err e) (repos, errs) = (repos, errs ++ fault e)
  with_index name repo (ok index) (repos, errs) =
      (if lists_package index name then repos ++ repo ∷ [] else repos, errs)

  -- The loop of GetReposForPackage.
  unfoldable pub repos_from :
      String
      → List PackageRepository
      → List PackageRepository × Faults
      → List PackageRepository × Faults
  unfolding lists_package
  repos_from name [] found = found
  repos_from name (repo ∷ repos) found =
      repos_from name repos (with_index name repo (clients.fetch_package_repo_index repo) found)

  abbrev pub partial_or_complete : List PackageRepository × Faults → List PackageRepository × Faults
  partial_or_complete (result, []) = (result, [])
  partial_or_complete ([], e ∷ es) = ([], e ∷ es)
  partial_or_complete (r ∷ rs, e ∷ es) = (r ∷ rs, partial (e ∷ es))

  -- GetReposForPackage
  unfoldable pub get_repos_for_package : String → List PackageRepository × Faults
  unfolding repos_from
  get_repos_for_package name = elim clients.list_package_repositories [
    | err e ↦ ([], fault e)
    | ok repos ↦ partial_or_complete (repos_from name repos ([], []))
  ]

module _ {V C : Type 0} (lib : Semver V C) (clients : RepoClients) where
  -- The loop of GetLatestVersion.
  unfoldable pub latest_from : String → List PackageRepository → String → Result String String
  latest_from name [] latest = ok latest
  latest_from name (repo ∷ repos) latest = clients.fetch_package_index repo name >>= λ index.
      latest_from name repos (
        if str_eq latest "" || is_upgradable lib latest index.latest_version
        then index.latest_version
        else latest)

  -- GetLatestVersion
  unfoldable pub get_latest_version : String → Result String String
  unfolding latest_from
  get_latest_version name = clients.list_package_repositories >>= λ repos. latest_from name repos ""

  -- The entry that FetchMetaIndex writes for an item of an index.
  unfoldable pub merged :
      PackageRepository → PackageRepoIndexItem → Option MetaIndexItem → MetaIndexItem
  merged repo item none = record { item = item; repos = repo.name ∷ [] }
  merged repo item (some meta) =
      let latest =
        if is_upgradable lib meta.item.latest_version item.latest_version
        then item.latest_version
        else meta.item.latest_version in
      let relevant = if not repo.is_default then item else meta.item in
      record { item = record relevant { latest_version = latest }; repos = repo.name ∷ meta.repos }

  -- The loop over the packages of one index.
  unfoldable pub merge_index :
      PackageRepository
      → List PackageRepoIndexItem
      → List (String × MetaIndexItem)
      → List (String × MetaIndexItem)
  unfolding merged
  merge_index repo [] index_map = index_map
  merge_index repo (item ∷ items) index_map =
      merge_index repo items (put index_map item.name (merged repo item (get index_map item.name)))

  abbrev pub with_repo_index :
      PackageRepository
      → Result String (List PackageRepoIndexItem)
      → List (String × MetaIndexItem) × Faults
      → List (String × MetaIndexItem) × Faults
  with_repo_index repo (err e) (index_map, errs) = (index_map, errs ++ fault e)
  with_repo_index repo (ok index) (index_map, errs) = (merge_index repo index index_map, errs)

  -- The loop over the repositories.
  unfoldable pub merge_indices :
      List PackageRepository
      → List (String × MetaIndexItem) × Faults
      → List (String × MetaIndexItem) × Faults
  unfolding merge_index
  merge_indices [] found = found
  merge_indices (repo ∷ repos) found =
      merge_indices repos (with_repo_index repo (clients.fetch_package_repo_index repo) found)

  abbrev pub item_at : Option MetaIndexItem → List MetaIndexItem
  item_at none = []
  item_at (some item) = item ∷ []

  abbrev target_of_map :
      (List String → List String)
      → List (String × MetaIndexItem) × Faults
      → Result String (List MetaIndexItem × Faults)
  target_of_map sort_names (index_map, errs) =
      ok (collect (λ name. item_at (get index_map name)) (sort_names (keys index_map)), errs)

  -- FetchMetaIndex: the packages of the target, with the combined error, or the error of the list of
  -- repositories. `sort_repos` is util.SortBy with the names, `sort_names` the slices.Sort of
  -- maputils.KeysSorted.
  unfoldable pub fetch_meta_index :
      (List PackageRepository → List PackageRepository)
      → (List String → List String)
      → Result String (List MetaIndexItem × Faults)
  unfolding merge_indices
  fetch_meta_index sort_repos sort_names = clients.list_package_repositories >>= λ repos.
      target_of_map sort_names (merge_indices (reversed (sort_repos repos)) ([], []))
