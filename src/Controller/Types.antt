-- ===== src/Controller/Types.antt =====
-- The state of one reconciliation, PackageReconcilationContext of internal/controller/common.go, and
-- the API server, which is a parameter.
use glasskube.Base.{String, Bool, false, Option, List, Result, none, some, str_eq}
use glasskube.Assoc.{get, string_key}
use glasskube.Manifest.{PackageManifest}
use glasskube.Values.Resolver.{Values}
use glasskube.Owners.OwnedResources.{OwnedResourceRef}

pub record PackageInfoTemplate : Type 0 where
  pub name : String
  pub version : String
  pub repository_name : String

-- ctrlpkg.Package: what the controller reads and writes of a Package or a ClusterPackage. `S` is a
-- list of conditions.
pub record ReconciledPackage (S : Type 0) : Type 0 where
  pub name : String
  pub namespace : String
  pub is_namespace_scoped : Bool
  pub is_deleting : Bool
  pub installed_as_dependency : Bool
  pub finalizers : List String
  pub package_info : PackageInfoTemplate
  pub values : Values
  pub suspend : Bool
  pub version : String
  pub conditions : S
  pub owned_resources : List OwnedResourceRef
  pub owned_package_infos : List OwnedResourceRef
  pub owned_packages : List OwnedResourceRef

pub record PackageInfo (S : Type 0) : Type 0 where
  -- `none` where the scheme has no kind for it.
  pub ref : Option OwnedResourceRef
  pub conditions : S
  pub version : String
  pub manifest : Option PackageManifest

-- The answer to a Get.
pub data Reply (A : Type 0) : Type 0 where
  found : A → Reply A
  not_found : Reply A
  get_failed : String → Reply A

-- The answer to a Delete.
pub data DeleteReply : Type 0 where
  deleted nothing_to_delete : DeleteReply
  delete_failed : String → DeleteReply

-- controllerutil.CreateOrUpdate of a required package: its kind, its name and namespace, and what the
-- callback writes.
pub record RequiredPackage : Type 0 where
  pub is_namespace_scoped : Bool
  pub name : String
  pub namespace : String
  pub package_info : PackageInfoTemplate
  pub values : Option Values

-- The API server in the state `W`. A call that can change it returns its next state, and an update
-- that fails returns an error.
pub record Api (W S : Type 0) : Type 0 where
  -- The labels of a resource.
  pub get_resource : W → OwnedResourceRef → Reply (List (String × String))
  pub delete : W → OwnedResourceRef → W × DeleteReply
  pub delete_in_foreground : W → OwnedResourceRef → W × DeleteReply
  pub list_packages : W → Result String (List (ReconciledPackage S))
  pub list_cluster_packages : W → Result String (List (ReconciledPackage S))
  -- By whether it is a Package, its name and its namespace.
  pub get_package : W → Bool → String → String → Reply (ReconciledPackage S)
  pub update_values :
      W → ReconciledPackage S → Option Values → W × Result String (ReconciledPackage S)
  pub create_or_update_package : W → RequiredPackage → W × Option String
  -- By the name of the PackageInfo and its spec, with the Get that follows a creation.
  pub create_or_update_package_info :
      W → String → PackageInfoTemplate → W × Result String (PackageInfo S)
  -- By the name, with SetOwnerIfManagedOrNotExists: the reference to the namespace.
  pub ensure_namespace : W → ReconciledPackage S → String → W × Result String OwnedResourceRef
  -- Status().Update and Update, with the package that is decoded from the answer.
  pub update_status : W → ReconciledPackage S → W × Result String (ReconciledPackage S)
  pub update : W → ReconciledPackage S → W × Result String (ReconciledPackage S)

-- PackageReconcilationContext, without its PackageInfo, which is an argument where it is known.
pub record Context (W S : Type 0) : Type 0 where
  pub pkg : ReconciledPackage S
  pub is_success : Bool
  pub should_update_status : Bool
  pub should_update_resource : Bool
  pub current_owned_resources : List OwnedResourceRef
  pub current_owned_packages : List OwnedResourceRef
  pub world : W

-- labels.IsManaged. A nil map has no keys.
abbrev has_value : Option String → String → Bool
has_value none v = false
has_value (some w) v = str_eq w v

unfoldable pub is_managed : List (String × String) → Bool
unfolding get
is_managed labels = has_value (get labels "app.kubernetes.io/managed-by") "glasskube"
