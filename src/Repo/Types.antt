-- ===== src/Repo/Types.antt =====
-- internal/repo/types, and the clients of the single repositories, which are a parameter.
use glasskube.Base.{String, Bool, Option, List, Result}
use glasskube.Manifest.{PackageScope, PackageManifest}

pub record PackageIndexItem : Type 0 where
  pub version : String

pub record PackageIndex : Type 0 where
  pub versions : List PackageIndexItem
  pub latest_version : String

-- What the modelled code reads of an item; the description and the icon are left out.
pub record PackageRepoIndexItem : Type 0 where
  pub name : String
  pub latest_version : String
  pub scope : Option PackageScope

pub record MetaIndexItem : Type 0 where
  pub item : PackageRepoIndexItem
  pub repos : List String

-- A PackageRepository, with what IsDefaultRepository answers.
pub record PackageRepository : Type 0 where
  pub name : String
  pub is_default : Bool

-- The list of the repositories from the API server, and ForRepo with the methods of RepoClient. An
-- error is its text, and no PartialErr.
pub record RepoClients : Type 0 where
  pub list_package_repositories : Result String (List PackageRepository)
  pub fetch_package_repo_index : PackageRepository → Result String (List PackageRepoIndexItem)
  pub fetch_package_index : PackageRepository → String → Result String PackageIndex
  pub fetch_package_manifest : PackageRepository → String → String → Result String PackageManifest
  -- ForRepoWithName(repositoryName).FetchPackageManifest
  pub fetch_package_manifest_by_name : String → String → String → Result String PackageManifest
