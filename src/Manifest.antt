-- ===== src/Manifest.antt =====
-- The package manifest of api/v1alpha1/package_manifest.go and its value definitions of
-- api/v1alpha1/package_manifest_values.go: the fields that the modelled code reads. What only the
-- adapters and the user interface read (descriptions, helm values, ...) is left out.
use glasskube.Base.{String, Bool, true, false, Option, none, some, List, [], str_eq}
use glasskube.Base.Int.{ℤ}

pub record Dependency : Type 0 where
  pub name : String
  pub version : String

pub record InlineValueConfiguration : Type 0 where
  pub value : Option String

abbrev pub ComponentValues : Type 0
ComponentValues = List (String × InlineValueConfiguration)

pub record Component : Type 0 where
  pub name : String
  pub installed_name : String
  pub version : String
  pub values : ComponentValues

-- A string type, with two values that the API server admits.
abbrev pub PackageScope : Type 0
PackageScope = String

abbrev pub scope_cluster : PackageScope
scope_cluster = "Cluster"

abbrev pub scope_namespaced : PackageScope
scope_namespaced = "Namespaced"

-- The receiver is a pointer, which may be nil.
unfoldable pub is_cluster : Option PackageScope → Bool
is_cluster none = true
is_cluster (some s) = str_eq s scope_cluster

unfoldable pub is_namespaced : Option PackageScope → Bool
is_namespaced none = false
is_namespaced (some s) = str_eq s scope_namespaced

abbrev pub ValueType : Type 0
ValueType = String

pub record ValueDefinitionConstraints : Type 0 where
  pub required : Bool
  pub min : Option ℤ
  pub max : Option ℤ
  pub min_length : Option ℤ
  pub max_length : Option ℤ
  pub pattern : Option String

-- corev1.TypedObjectReference
pub record TypedObjectReference : Type 0 where
  pub api_group : Option String
  pub kind : String
  pub name : String
  pub namespace : Option String

pub record PartialJsonPatch : Type 0 where
  pub op : String
  pub path : String

pub record ValueDefinitionTarget : Type 0 where
  pub resource : Option TypedObjectReference
  pub chart_name : Option String
  pub patch : PartialJsonPatch
  pub value_template : String

pub record ValueDefinition : Type 0 where
  pub type : ValueType
  pub default_value : String
  pub options : List String
  pub constraints : ValueDefinitionConstraints
  pub targets : List ValueDefinitionTarget

-- corev1.TypedLocalObjectReference
pub record TypedLocalObjectReference : Type 0 where
  pub api_group : Option String
  pub kind : String
  pub name : String

pub record TransformationSource : Type 0 where
  pub resource : Option TypedLocalObjectReference
  pub path : String

pub record TransformationDefinition : Type 0 where
  pub source : TransformationSource
  pub targets : List ValueDefinitionTarget

pub record HelmManifest : Type 0 where
  pub repository_url : String
  pub chart_name : String
  pub chart_version : String

pub data KustomizeManifest : Type 0 where
  kustomize_manifest : KustomizeManifest

pub record PlainManifest : Type 0 where
  pub url : String
  pub default_namespace : String

pub record PackageManifest : Type 0 where
  pub scope : Option PackageScope
  pub name : String
  pub helm : Option HelmManifest
  pub kustomize : Option KustomizeManifest
  pub manifests : List PlainManifest
  pub value_definitions : List (String × ValueDefinition)
  pub transformations : List TransformationDefinition
  pub transitive_resources : List TypedLocalObjectReference
  pub default_namespace : String
  pub dependencies : List Dependency
  pub components : List Component

-- The zero value of the struct.
abbrev pub empty_manifest : PackageManifest
empty_manifest = record {
  scope = none;
  name = "";
  helm = none;
  kustomize = none;
  manifests = [];
  value_definitions = [];
  transformations = [];
  transitive_resources = [];
  default_namespace = "";
  dependencies = [];
  components = [];
}
