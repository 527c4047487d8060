-- ===== src/Values/OptionSamples.antt =====
-- An option for each kind of reference, over an old value and a default.
use glasskube.Base.{
  String, ◌≡◌, refl, true, false, Option, none, some, List, [], ◌∷◌, map, ok, err, All,
}
use glasskube.Assoc.{get, put, string_key}
use glasskube.Text.{cut, has_prefix}
use glasskube.Manifest.{PackageManifest, ValueDefinition, empty_manifest}
use glasskube.Values.Resolver.{Values, ValueConfiguration}
use glasskube.Values.Options.{
  ValuesOptions, inline_value, default_values, should_use_default, parse_values, is_values_set,
  invalid_value_format, wrong_number_of_parameters, value_is_invalid,
}
use glasskube.Values.Defaults.{AreNamed, IsDefaultOf}
use glasskube.Values.Spelled.{
  Given, inline, config_map, secret, package_of, spell_option, entry_of, IsOption, latest,
  kept_values, parse_values-spell,
}

abbrev given : List (String × Given)
given =
    ("host", config_map "default" "settings" "host,name")
    ∷ ("size", inline "9=3")
    ∷ ("user", secret "default" "login" "user")
    ∷ ("port", package_of "shop" "port")
    ∷ []

abbrev opts : ValuesOptions
opts = record {
  values =
      "host=$ConfigMapRef$default,settings,host,name" ∷ "size=9=3"
      ∷ "user=$SecretRef$default,login,user" ∷ "port=$PackageRef$shop,port" ∷ [];
  keep_old_values = true;
  keep_old_values_default = none;
  use_default = [];
}

abbrev old_values : Values
old_values = ("size", inline_value "4") ∷ ("color", inline_value "red") ∷ []

spelled : opts.values ≡ map spell_option given
spelled = refl

given-IsOption : All IsOption given
unfolding cut has_prefix
given-IsOption =
    ((refl, (refl, refl)), ((refl, (refl, refl, refl)), ((refl, (refl, refl)), ((refl, refl), tt))))

abbrev definition : String → ValueDefinition
definition default = record {
  type = "text";
  default_value = default;
  options = [];
  constraints = record {
    required = false;
    min = none;
    max = none;
    min_length = none;
    max_length = none;
    pattern = none;
  };
  targets = [];
}

-- Definitions with and without a default, and --use-default of all.
abbrev defined : PackageManifest
defined = record empty_manifest {
  value_definitions =
      ("color", definition "blue") ∷ ("shape", definition "round") ∷ ("host", definition "") ∷ [];
}

abbrev with_defaults : ValuesOptions
with_defaults = record opts { use_default = "all" ∷ [] }

defined-AreNamed : AreNamed defined.value_definitions
unfolding get
defined-AreNamed = (refl, (refl, (refl, tt)))

parse_values-spell_example :
    (vs : Values) × (parse_values with_defaults defined old_values ≡ ok vs)
    × ((name : String)
        → (default : Option ValueConfiguration) × IsDefaultOf with_defaults.use_default
            defined.value_definitions name default
          × (get vs name
              ≡ latest
                  (map entry_of given)
                  name
                  (latest (kept_values with_defaults old_values) name default)))
parse_values-spell_example =
    parse_values-spell with_defaults defined old_values given spelled given-IsOption
      defined-AreNamed

-- The old color stays, and the shape is the default.
defaults_test :
    get (default_values ("shape" ∷ []) defined.value_definitions []) "shape"
    ≡ some (inline_value "round")
unfolding default_values should_use_default get put
defaults_test = refl

errors_test :
    (parse_values (record opts { values = "size" ∷ [] }) empty_manifest []
      ≡ err (invalid_value_format "size"))
    × (parse_values (record opts { values = "size=$SecretRef$a,b" ∷ [] }) empty_manifest []
        ≡ err (value_is_invalid "size" (wrong_number_of_parameters "$SecretRef$" 2)))
    × (is_values_set opts ≡ true)
unfolding parse_values is_values_set
errors_test = (refl, refl, refl)
