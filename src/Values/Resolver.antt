-- ===== src/Values/Resolver.antt =====
-- internal/manifestvalues/resolver.go, with the value types of api/v1alpha1/common.go. The clients
-- for ConfigMaps, Secrets and packages are the parameter `Client`.
use glasskube.Base.{ℕ, zero, suc, String, Option, none, some, List, [], ◌∷◌, ◌++◌, Result, ok, err}
use glasskube.Assoc.{get, put, keys, string_key}
use glasskube.Values.Validate.{
  ValidationTarget, actual_value, noop_value, ValidationError, Regexp, validate,
}
use glasskube.Manifest.{PackageManifest}

pub record ObjectKeyValueSource : Type 0 where
  pub name : String
  pub namespace : String
  pub key : String

pub record PackageValueSource : Type 0 where
  pub name : String
  pub value : String

pub record ValueReference : Type 0 where
  pub config_map_ref : Option ObjectKeyValueSource
  pub secret_ref : Option ObjectKeyValueSource
  pub package_ref : Option PackageValueSource

pub record ValueConfiguration : Type 0 where
  pub value : Option String
  pub value_from : Option ValueReference

abbrev pub Values : Type 0
Values = List (String × ValueConfiguration)

-- KubernetesClientAdapter and PackageClientAdapter: the data of a ConfigMap and of a Secret by name
-- and namespace, and `Spec.Values` of a ClusterPackage by name. An error is its text.
pub record Client : Type 0 where
  pub get_config_map : String → String → Result String (List (String × String))
  pub get_secret : String → String → Result String (List (String × String))
  pub get_cluster_package : String → Result String Values

pub data ResolveError : Type 0 where
  config_map_ref_error secret_ref_error : ObjectKeyValueSource → ResolveError → ResolveError
  package_ref_error : PackageValueSource → ResolveError → ResolveError
  key_error client_error : String → ResolveError
  empty_value empty_reference : ResolveError

-- `none` is the fuel that ran out: the code would recurse on.
abbrev pub Resolution : Type 0
Resolution = Option (Result ResolveError String)

abbrev key_of : (ResolveError → ResolveError) → String → Option String → Result ResolveError String
key_of wrap key none = err (wrap (key_error key))
key_of wrap key (some v) = ok v

abbrev data_of :
    (ResolveError → ResolveError)
    → String
    → Result String (List (String × String))
    → Result ResolveError String
data_of wrap key (err e) = err (wrap (client_error e))
data_of wrap key (ok m) = key_of wrap key (get m key)

abbrev pub wrapped : PackageValueSource → Resolution → Resolution
wrapped ref none = none
wrapped ref (some (ok v)) = some (ok v)
wrapped ref (some (err e)) = some (err (package_ref_error ref e))

module _ (client : Client) where
  unfoldable pub resolve_config_map_ref : ObjectKeyValueSource → Result ResolveError String
  resolve_config_map_ref ref =
      data_of (config_map_ref_error ref) ref.key (client.get_config_map ref.name ref.namespace)

  unfoldable pub resolve_secret_ref : ObjectKeyValueSource → Result ResolveError String
  resolve_secret_ref ref =
      data_of (secret_ref_error ref) ref.key (client.get_secret ref.name ref.namespace)

  abbrev pub package_value :
      (ValueConfiguration → Resolution)
      → PackageValueSource
      → Option ValueConfiguration
      → Resolution
  package_value resolve ref none = some (err (package_ref_error ref (key_error ref.value)))
  package_value resolve ref (some v) = wrapped ref (resolve v)

  -- resolvePackageRef; `resolve` is the call of ResolveValue.
  unfoldable pub resolve_package_ref :
      (ValueConfiguration → Resolution) → PackageValueSource → Resolution
  resolve_package_ref resolve ref = elim (client.get_cluster_package ref.name) [
    | err e ↦ some (err (package_ref_error ref (client_error e)))
    | ok values ↦ package_value resolve ref (get values ref.value)
  ]

  unfoldable pub resolve_reference : (ValueConfiguration → Resolution) → ValueReference → Resolution
  unfolding resolve_config_map_ref resolve_secret_ref resolve_package_ref
  resolve_reference resolve ref = elim ref.config_map_ref [
    | some c ↦ some (resolve_config_map_ref c)
    | none ↦ elim ref.secret_ref [
      | some s ↦ some (resolve_secret_ref s)
      | none ↦ elim ref.package_ref [
        | some p ↦ resolve_package_ref resolve p
        | none ↦ some (err empty_reference)
      ]
    ]
  ]

  -- ResolveValue, with fuel for the references from package to package.
  unfoldable pub resolve_value : ℕ → ValueConfiguration → Resolution
  unfolding resolve_reference
  resolve_value zero v = none
  resolve_value (suc fuel) v = elim v.value [
    | some s ↦ some (ok s)
    | none ↦ elim v.value_from [
      | some ref ↦ resolve_reference (resolve_value fuel) ref
      | none ↦ some (err empty_value)
    ]
  ]

  abbrev pub Resolved : Type 0
  Resolved = List (String × String) × List (String × ResolveError)

  abbrev pub add_resolution : String → Resolution → Resolved → Option Resolved
  add_resolution name none done = none
  add_resolution name (some (ok v)) (values, errors) = some (put values name v, errors)
  add_resolution name (some (err e)) (values, errors) = some (values, errors ++ (name, e) ∷ [])

  -- One round of the loop of Resolve.
  unfoldable pub resolve_at : ℕ → String → Option ValueConfiguration → Resolved → Option Resolved
  resolve_at fuel name none done = some done
  resolve_at fuel name (some v) done = add_resolution name (resolve_value fuel v) done

  -- The loop, over the keys of the map.
  unfoldable pub resolve_all : ℕ → Values → List String → Resolved → Option Resolved
  unfolding resolve_at
  resolve_all fuel values [] done = some done
  resolve_all fuel values (name ∷ names) done = elim (resolve_at fuel name (get values name) done) [
    | none ↦ none
    | some done' ↦ resolve_all fuel values names done'
  ]

  -- Resolve: the resolved values, and the errors that multierr combines.
  unfoldable pub resolve : ℕ → Values → Option Resolved
  unfolding resolve_all
  resolve fuel values = resolve_all fuel values (keys values) ([], [])

-- targetsForResolvedValues
unfoldable pub targets_for_resolved_values :
    List (String × String) → List (String × ValidationTarget)
targets_for_resolved_values [] = []
targets_for_resolved_values ((name, v) ∷ rest) =
    (name, actual_value v) ∷ targets_for_resolved_values rest

abbrev pub target_of : ValueConfiguration → ValidationTarget
target_of v = elim v.value [ some s ↦ actual_value s | none ↦ noop_value ]

-- targetsForPackage
unfoldable pub targets_for_package : Values → List (String × ValidationTarget)
targets_for_package [] = []
targets_for_package ((name, v) ∷ rest) = (name, target_of v) ∷ targets_for_package rest

module _ {R : Type 0} (re : Regexp R) where
  unfoldable pub validate_resolved_values :
      PackageManifest → List (String × String) → List ValidationError
  unfolding targets_for_resolved_values
  validate_resolved_values manifest values =
      validate re manifest (targets_for_resolved_values values)

  unfoldable pub validate_package : PackageManifest → Values → List ValidationError
  unfolding targets_for_package
  validate_package manifest values = validate re manifest (targets_for_package values)
