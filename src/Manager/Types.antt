-- ===== src/Manager/Types.antt =====
-- The types of internal/dependency/types.go, the errors of internal/repo/error, and the clients that
-- the dependency manager is built from, which are parameters.
use glasskube.Base.{
  String, Bool, false, not, ◌||◌, Option, none, some, List, [], ◌∷◌, Result, ok, err, is_empty,
  if◌then◌else◌,
}
use glasskube.Manifest.{PackageManifest}
use glasskube.Graph.Types.{DependencyError}

-- One of the errors that multierr combines, and whether it is a PartialErr.
pub record Fault : Type 0 where
  pub is_partial : Bool
  pub message : String

-- A Go error: the list of the combined errors, empty for nil.
abbrev pub Faults : Type 0
Faults = List Fault

-- repoerror.IsPartial: errors.As finds a PartialErr among the combined errors.
unfoldable pub is_partial : Faults → Bool
is_partial [] = false
is_partial (f ∷ fs) = f.is_partial || is_partial fs

-- repoerror.IsComplete
unfoldable pub is_complete : Faults → Bool
unfolding is_partial
is_complete fs = not (is_empty fs || is_partial fs)

-- An error of a library or of the API server.
abbrev pub fault : String → Faults
fault message = record { is_partial = false; message = message } ∷ []

-- How the manager's methods end other than by a result: with an error, by the panic of a nil
-- dereference, or (in the model) with no fuel left.
pub data Stop (V C : Type 0) : Type 0 where
  failed : Faults → Stop V C
  unmet : DependencyError V C → Stop V C
  panic out_of_fuel : Stop V C

abbrev pub Run : Type 0 → Type 0 → Type 0 → Type 0
Run V C A = Result (Stop V C) A

-- A call of a method that returns a value and an error, or panics.
pub data Call (A : Type 0) : Type 0 where
  returned : A → Faults → Call A
  panicked : Call A

-- A call that returned a pointer, as the callers in the manager read it.
unfoldable pub checked : {V C : Type 0} {A : Type 0} → Call (Option A) → Run V C A
unfolding is_complete
checked panicked = err panic
checked (returned pointer errs) =
    if is_complete errs
    then err (failed errs)
    else elim pointer [ none ↦ err panic | some a ↦ ok a ]

-- adapter.RepoAdapter
pub record RepoAdapter : Type 0 where
  pub get_versions : String → Call (List String)
  pub get_manifest : String → String → Call (Option PackageManifest)
  pub get_manifest_from_repo : String → String → String → Call (Option PackageManifest)

-- What the manager reads of a Package or a ClusterPackage.
pub record InstalledPackage : Type 0 where
  pub name : String
  pub namespace : String
  pub package_name : String
  pub version : String
  pub repository_name : String
  pub is_deleting : Bool
  pub is_namespace_scoped : Bool
  pub installed_as_dependency : Bool

-- The answer of GetPackageInfo, with the manifest of the status, which may be nil.
pub data PackageInfoReply : Type 0 where
  found : Option PackageManifest → PackageInfoReply
  not_found : PackageInfoReply
  request_error : String → PackageInfoReply

-- adapter.PackageClientAdapter; `get_package_info` is asked for the PackageInfo whose name belongs to
-- the package.
pub record PackageClient : Type 0 where
  pub list_cluster_packages : Result String (List InstalledPackage)
  pub list_packages : Result String (List InstalledPackage)
  pub get_package_info : InstalledPackage → PackageInfoReply

pub record PackageWithVersion : Type 0 where
  pub name : String
  pub version : String

pub record ComponentMetadata : Type 0 where
  pub name : String
  pub namespace : String

pub record Requirement : Type 0 where
  pub package_with_version : PackageWithVersion
  pub component_metadata : Option ComponentMetadata
  pub transitive : Bool

pub record Conflict (V C : Type 0) : Type 0 where
  pub actual : PackageWithVersion
  pub required : PackageWithVersion
  pub cause : DependencyError V C

pub data ValidationResultStatus : Type 0 where
  status_ok status_resolvable status_conflict : ValidationResultStatus

pub record ValidationResult (V C : Type 0) : Type 0 where
  pub status : ValidationResultStatus
  pub requirements : List Requirement
  pub conflicts : List (Conflict V C)
