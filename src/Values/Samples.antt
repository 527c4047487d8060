-- ===== src/Values/Samples.antt =====
-- A manifest with a number and a text, and packages whose values refer to one another.
use glasskube.Base.{
  String, ◌≡◌, refl, Bool, true, false, none, some, List, [], ◌∷◌, Result, ok, err, str_eq,
  if◌then◌else◌,
}
use glasskube.Base.Int.{pos}
use glasskube.Strconv.{atoi, parse_bool}
use glasskube.Assoc.{get, put, keys, collect, contains, string_key}
use glasskube.Manifest.{
  empty_manifest, ValueDefinition, ValueDefinitionConstraints, PackageManifest,
}
use glasskube.Values.Validate.{
  Regexp, ValidationTarget, actual_value, noop_value, validate, validate_single,
  validators_for_type, constraint_max, invalid, constraint_required, no_def,
}
use glasskube.Values.Resolver.{ValueConfiguration, Values, Client, resolve_value, resolve}

-- A pattern matches the text that is equal to it.
abbrev pub exact : Regexp String
exact = record { compile = λ p. some p; match_string = str_eq }

abbrev unconstrained : Bool → ValueDefinitionConstraints
unconstrained required = record {
  required = required;
  min = none;
  max = none;
  min_length = none;
  max_length = none;
  pattern = none;
}

abbrev pub replicas : ValueDefinition
replicas = record {
  default_value = "";
  type = "number";
  options = [];
  constraints = record (unconstrained true) { max = some (pos 9) };
  targets = [];
}

abbrev pub app : PackageManifest
app = record empty_manifest {
  name = "app";
  value_definitions =
      ("replicas", replicas)
      ∷ (
        "debug",
        record {
          type = "boolean";
          default_value = "";
          options = [];
          constraints = unconstrained false;
          targets = [];
        },
      )
      ∷ [];
}

abbrev pub given : List (String × ValidationTarget)
given = ("replicas", actual_value "3") ∷ ("debug", noop_value) ∷ []

unfoldable pub program : Unit {0}
unfolding validate validate_single validators_for_type get put keys collect contains atoi parse_bool
    resolve_value resolve
program = tt

validate_test :
    (validate exact app given ≡ [])
    × (validate exact app (("replicas", actual_value "12") ∷ ("size", actual_value "1") ∷ [])
        ≡ record { name = "replicas"; cause = invalid (constraint_max (pos 9) ∷ []) }
          ∷ record { name = "size"; cause = no_def }
          ∷ [])
    × (validate exact app [] ≡ record { name = "replicas"; cause = constraint_required } ∷ [])
unfolding program
validate_test = (refl, refl, refl)

abbrev pub literal : String → ValueConfiguration
literal s = record { value = some s; value_from = none }

abbrev pub reference : String → String → ValueConfiguration
reference name value = record {
  value = none;
  value_from = some (record {
    config_map_ref = none;
    secret_ref = none;
    package_ref = some (record { name = name; value = value });
  });
}

-- `db` holds a literal, `app` refers to it, and `loop` refers to itself.
abbrev packages : String → Result String Values
packages name =
    if str_eq name "db"
    then ok (("host", literal "db.local") ∷ [])
    else if str_eq name "app"
    then ok (("db_host", reference "db" "host") ∷ [])
    else if str_eq name "loop"
    then ok (("a", reference "loop" "a") ∷ [])
    else err "not found"

abbrev pub client : Client
client = record {
  get_config_map = λ name namespace. err "not found";
  get_secret = λ name namespace. err "not found";
  get_cluster_package = packages;
}

pub resolved_host : resolve_value client 3 (reference "app" "db_host") ≡ some (ok "db.local")
unfolding program
resolved_host = refl

-- Every package holds one literal.
abbrev pub flat : Client
flat = record {
  get_config_map = λ name namespace. err "not found";
  get_secret = λ name namespace. err "not found";
  get_cluster_package = λ name. ok (("host", literal "db.local") ∷ []);
}
