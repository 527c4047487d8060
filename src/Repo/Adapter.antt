-- ===== src/Repo/Adapter.antt =====
-- internal/dependency/default_repo_adapter.go.
use glasskube.Base.{
  String, Option, none, some, List, [], ◌∷◌, ◌++◌, map, Result, ok, err, if◌then◌else◌,
}
use glasskube.Manifest.{PackageManifest, empty_manifest}
use glasskube.Manager.Types.{Faults, is_complete, fault, Call, returned, panicked, RepoAdapter}
use glasskube.Repo.Types.{PackageIndex, PackageIndexItem, PackageRepository, RepoClients}
use glasskube.Repo.Meta.{get_repos_for_package}

-- getRepoForPackage, once the repositories are known.
abbrev pub repo_of : List PackageRepository × Faults → Option PackageRepository × Faults
repo_of ([], errs) = (none, fault "not available in any repository" ++ errs)
repo_of (repo ∷ [], errs) = (some repo, errs)
repo_of (repo ∷ other ∷ repos, errs) = (none, errs ++ fault "available from several repositories")

module _ (clients : RepoClients) where
  unfoldable pub get_repo_for_package : String → Option PackageRepository × Faults
  unfolding get_repos_for_package
  get_repo_for_package name = repo_of (get_repos_for_package clients name)

  abbrev pub versions_of : Faults → Result String PackageIndex → Call (List String)
  versions_of repo_err (err e) = returned [] (repo_err ++ fault e)
  versions_of repo_err (ok index) =
      returned (map (λ (item : PackageIndexItem). item.version) index.versions) repo_err

  -- A use of `*repo` after the check of the error, where `repo` may be nil.
  abbrev pub with_repo :
      {A : Type 0}
      → A
      → Option PackageRepository × Faults
      → (PackageRepository → Faults → Call A)
      → Call A
  with_repo default (repo, errs) use_repo =
      if is_complete errs
      then returned default errs
      else elim repo [ none ↦ panicked | some r ↦ use_repo r errs ]

  unfoldable pub get_versions : String → Call (List String)
  unfolding get_repo_for_package is_complete
  get_versions name =
      with_repo [] (get_repo_for_package name)
        (λ repo repo_err. versions_of repo_err (clients.fetch_package_index repo name))

  -- After a failed fetch the manifest is that of `var manifest`.
  abbrev pub manifest_of : Faults → Result String PackageManifest → Call (Option PackageManifest)
  manifest_of repo_err (err e) = returned (some empty_manifest) (fault e ++ repo_err)
  manifest_of repo_err (ok manifest) = returned (some manifest) repo_err

  unfoldable pub get_manifest : String → String → Call (Option PackageManifest)
  unfolding get_repo_for_package is_complete
  get_manifest name version =
      with_repo none (get_repo_for_package name)
        (λ repo repo_err. manifest_of repo_err (clients.fetch_package_manifest repo name version))

  unfoldable pub get_manifest_from_repo : String → String → String → Call (Option PackageManifest)
  get_manifest_from_repo name version repository_name =
      elim (clients.fetch_package_manifest_by_name repository_name name version) [
        | err e ↦ returned none (fault e)
        | ok manifest ↦ returned (some manifest) []
      ]

  -- The adapter that NewDependencyManager makes.
  abbrev pub default_repo_adapter : RepoAdapter
  default_repo_adapter = record {
    get_versions = get_versions;
    get_manifest = get_manifest;
    get_manifest_from_repo = get_manifest_from_repo;
  }
