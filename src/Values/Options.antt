-- ===== src/Values/Options.antt =====
-- internal/manifestvalues/cli: the values that are given as options of a command,
-- values_options.go and UseDefaultValuesOption.
use glasskube.Base.{
  ℕ, String, Bool, true, false, not, ◌||◌, Option, none, some, List, [], ◌∷◌, str_eq, Result, ok,
  err, ◌>>=◌, if◌then◌else◌, is_empty, length,
}
use glasskube.Assoc.{put, string_key}
use glasskube.Text.{split_n, has_prefix, trim_prefix}
use glasskube.Manifest.{PackageManifest, ValueDefinition}
use glasskube.Values.Resolver.{
  ObjectKeyValueSource, PackageValueSource, ValueReference, ValueConfiguration, Values,
}

pub record ValuesOptions : Type 0 where
  pub values : List String
  pub keep_old_values : Bool
  pub keep_old_values_default : Option Bool
  pub use_default : List String

abbrev pub same_bool : Bool → Bool → Bool
same_bool true b = b
same_bool false b = not b

abbrev pub differs_from_default : Bool → Option Bool → Bool
differs_from_default b none = false
differs_from_default b (some default) = not (same_bool b default)

-- IsValuesSet
unfoldable pub is_values_set : ValuesOptions → Bool
is_values_set opts =
    differs_from_default opts.keep_old_values opts.keep_old_values_default
    || not (is_empty opts.values)

-- ShouldUseDefault
unfoldable pub should_use_default : List String → String → ValueDefinition → Bool
should_use_default [] name def = false
should_use_default (v ∷ vs) name def =
    if str_eq v "all" || str_eq v name
    then not (str_eq def.default_value "")
    else should_use_default vs name def

pub data OptionError : Type 0 where
  invalid_value_format : String → OptionError
  wrong_number_of_parameters : String → ℕ → OptionError
  value_is_invalid : String → OptionError → OptionError

abbrev pub inline_value : String → ValueConfiguration
inline_value v = record { value = some v; value_from = none }

abbrev pub no_reference : ValueReference
no_reference = record { config_map_ref = none; secret_ref = none; package_ref = none }

abbrev pub reference_to : ValueReference → ValueConfiguration
reference_to ref = record { value = none; value_from = some ref }

abbrev pub config_map_prefix : String
config_map_prefix = "$ConfigMapRef$"

abbrev pub secret_prefix : String
secret_prefix = "$SecretRef$"

abbrev pub package_prefix : String
package_prefix = "$PackageRef$"

-- parseSourceParts, up to the check of the number of the parts.
unfoldable pub source_parts : String → String → ℕ → List String
unfolding split_n trim_prefix
source_parts value prefix n = split_n "," n (trim_prefix prefix value)

abbrev pub object_source : String → List String → Result OptionError ObjectKeyValueSource
object_source prefix (namespace ∷ name ∷ key ∷ []) =
    ok (record { name = name; namespace = namespace; key = key })
object_source prefix parts = err (wrong_number_of_parameters prefix (length parts))

-- parseObjectKeyValueSource
unfoldable pub parse_object_key_value_source :
    String → String → Result OptionError ObjectKeyValueSource
unfolding source_parts
parse_object_key_value_source value prefix = object_source prefix (source_parts value prefix 3)

abbrev pub package_source : List String → Result OptionError PackageValueSource
package_source (name ∷ value ∷ []) = ok (record { name = name; value = value })
package_source parts = err (wrong_number_of_parameters package_prefix (length parts))

-- parsePackageValueSource
unfoldable pub parse_package_value_source : String → Result OptionError PackageValueSource
unfolding source_parts
parse_package_value_source value = package_source (source_parts value package_prefix 2)

abbrev pub map_ok : {A B : Type 0} → (A → B) → Result OptionError A → Result OptionError B
map_ok f (ok a) = ok (f a)
map_ok f (err e) = err e

abbrev pub config_map_value : ObjectKeyValueSource → ValueConfiguration
config_map_value source = reference_to (record no_reference { config_map_ref = some source })

abbrev pub secret_value : ObjectKeyValueSource → ValueConfiguration
secret_value source = reference_to (record no_reference { secret_ref = some source })

abbrev pub package_value_of_source : PackageValueSource → ValueConfiguration
package_value_of_source source = reference_to (record no_reference { package_ref = some source })

-- The value configuration of the part of an option behind the `=`.
unfoldable pub parse_configuration : String → Result OptionError ValueConfiguration
unfolding has_prefix parse_object_key_value_source parse_package_value_source
parse_configuration value =
    if has_prefix config_map_prefix value
    then map_ok config_map_value (parse_object_key_value_source value config_map_prefix)
    else if has_prefix secret_prefix value
    then map_ok secret_value (parse_object_key_value_source value secret_prefix)
    else if has_prefix package_prefix value
    then map_ok package_value_of_source (parse_package_value_source value)
    else ok (inline_value value)

abbrev pub key_and_value : String → List String → Result OptionError (String × String)
key_and_value s (key ∷ value ∷ []) = ok (key, value)
key_and_value s parts = err (invalid_value_format s)

abbrev pub named_error : {A : Type 0} → String → Result OptionError A → Result OptionError A
named_error key (ok a) = ok a
named_error key (err e) = err (value_is_invalid key e)

-- One option: its key and its configuration.
unfoldable pub parse_option : String → Result OptionError (String × ValueConfiguration)
unfolding split_n parse_configuration
parse_option s = key_and_value s (split_n "=" 2 s) >>= λ (key, value).
    named_error key (parse_configuration value) >>= λ configuration. ok (key, configuration)

-- The loop over the options.
unfoldable pub parse_options : List String → Values → Result OptionError Values
unfolding parse_option
parse_options [] new_values = ok new_values
parse_options (s ∷ ss) new_values =
    parse_option s >>= λ (key, configuration). parse_options ss (put new_values key configuration)

-- The loop over the value definitions.
unfoldable pub default_values : List String → List (String × ValueDefinition) → Values → Values
unfolding should_use_default
default_values use_default [] new_values = new_values
default_values use_default ((name, def) ∷ defs) new_values = default_values use_default defs (
    if should_use_default use_default name def
    then put new_values name (inline_value def.default_value)
    else new_values)

-- maps.Copy
unfoldable pub copy_values : Values → Values → Values
copy_values new_values [] = new_values
copy_values new_values ((name, v) ∷ old) = copy_values (put new_values name v) old

-- ParseValues
unfoldable pub parse_values : ValuesOptions → PackageManifest → Values → Result OptionError Values
unfolding parse_options default_values copy_values
parse_values opts manifest old_values =
    let defaults = default_values opts.use_default manifest.value_definitions [] in
    parse_options opts.values
      (if opts.keep_old_values then copy_values defaults old_values else defaults)
