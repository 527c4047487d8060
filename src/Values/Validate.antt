-- ===== src/Values/Validate.antt =====
-- internal/manifestvalues/validate.go with the errors of errors.go. Go's regexp is the parameter
-- `Regexp`. Errors that multierr combines are a list, empty for nil.
use Prim.Native.String.{len}
use glasskube.Base.{
  String, Bool, true, false, not, Option, none, some, List, [], ◌∷◌, ◌++◌, str_eq, if◌then◌else◌,
  is_empty,
}
use glasskube.Base.Int.{ℤ, pos, ltb_ℤ}
use glasskube.Assoc.{get, keys, collect, contains, string_key}
use glasskube.Strconv.{atoi, parse_bool}
use glasskube.Manifest.{ValueType, ValueDefinition, PackageManifest}

-- regexp.Compile and MatchString, on patterns of type `R`.
pub record Regexp (R : Type 0) : Type 0 where
  pub compile : String → Option R
  pub match_string : R → String → Bool

-- The errors of one validator, by the constructors of errors.go.
pub data ValueError : Type 0 where
  constraint_min_length constraint_max_length constraint_min constraint_max : ℤ → ValueError
  format_error : String → ValueError
  -- the error of strconv.Atoi, and that of regexp.Compile
  not_a_number not_a_pattern : ValueError
  options_error : List String → ValueError
  pattern_error : String → ValueError

pub data Cause : Type 0 where
  invalid : List ValueError → Cause
  value_type_error : ValueType → Cause
  constraint_required no_def : Cause

-- NewValidationError(name, cause)
pub record ValidationError : Type 0 where
  pub name : String
  pub cause : Cause

abbrev pub ValidateFn : Type 0
ValidateFn = ValueDefinition → String → List ValueError

unfoldable pub validate_min_length : ValidateFn
validate_min_length def value = elim def.constraints.min_length [
  | none ↦ []
  | some n ↦ if ltb_ℤ (pos (len value)) n then constraint_min_length n ∷ [] else []
]

unfoldable pub validate_max_length : ValidateFn
validate_max_length def value = elim def.constraints.max_length [
  | none ↦ []
  | some n ↦ if ltb_ℤ n (pos (len value)) then constraint_max_length n ∷ [] else []
]

unfoldable pub validate_format_number : ValidateFn
validate_format_number def value = elim (atoi value) [
  | none ↦ format_error "number" ∷ []
  | some i ↦ []
]

unfoldable pub validate_format_boolean : ValidateFn
validate_format_boolean def value = elim (parse_bool value) [
  | none ↦ format_error "boolean" ∷ []
  | some b ↦ []
]

abbrev at_least : ℤ → Option ℤ → List ValueError
at_least n none = not_a_number ∷ []
at_least n (some i) = if ltb_ℤ i n then constraint_min n ∷ [] else []

unfoldable pub validate_min : ValidateFn
validate_min def value = elim def.constraints.min [ none ↦ [] | some n ↦ at_least n (atoi value) ]

abbrev at_most : ℤ → Option ℤ → List ValueError
at_most n none = not_a_number ∷ []
at_most n (some i) = if ltb_ℤ n i then constraint_max n ∷ [] else []

unfoldable pub validate_max : ValidateFn
validate_max def value = elim def.constraints.max [ none ↦ [] | some n ↦ at_most n (atoi value) ]

unfoldable pub validate_options : ValidateFn
validate_options def value =
    if contains def.options value then [] else options_error def.options ∷ []

-- `err != nil`
pub failed : List ValueError → Bool
failed errs = not (is_empty errs)

-- validateFns.validate
unfoldable pub run_validators : List ValidateFn → ValueDefinition → String → List ValueError
run_validators fns def value = collect (λ (fn : ValidateFn). fn def value) fns

-- NewValidationError, which is nil for a nil cause.
abbrev pub validation_error : String → List ValueError → List ValidationError
validation_error name [] = []
validation_error name (e ∷ es) = record { name = name; cause = invalid (e ∷ es) } ∷ []

module _ {R : Type 0} (re : Regexp R) where
  abbrev matches : String → Option R → String → List ValueError
  matches pattern none value = not_a_pattern ∷ []
  matches pattern (some r) value =
      if re.match_string r value then [] else pattern_error pattern ∷ []

  unfoldable pub validate_pattern : ValidateFn
  validate_pattern def value = elim def.constraints.pattern [
    | none ↦ []
    | some p ↦ matches p (re.compile p) value
  ]

  -- validatorsForType
  unfoldable pub validators_for_type : ValueType → Option (List ValidateFn)
  unfolding validate_max_length validate_min_length validate_pattern validate_format_number
      validate_min validate_max validate_options validate_format_boolean
  validators_for_type t =
      if str_eq t "text"
      then some (validate_max_length ∷ validate_min_length ∷ validate_pattern ∷ [])
      else if str_eq t "number"
      then some (validate_format_number ∷ validate_min ∷ validate_max ∷ validate_pattern ∷ [])
      else if str_eq t "options"
      then some (validate_options ∷ [])
      else if str_eq t "boolean"
      then some (validate_format_boolean ∷ [])
      else none

  -- ValidateSingle
  unfoldable pub validate_single : String → ValueDefinition → String → List ValidationError
  unfolding run_validators
  validate_single name def value = elim (validators_for_type def.type) [
    | none ↦ record { name = name; cause = value_type_error def.type } ∷ []
    | some fns ↦ validation_error name (run_validators fns def value)
  ]

-- validationTarget and its two implementations.
pub data ValidationTarget : Type 0 where
  actual_value : String → ValidationTarget
  noop_value : ValidationTarget

pub skip : ValidationTarget → Bool
skip (actual_value s) = false
skip noop_value = true

abbrev pub get_value : ValidationTarget → String
get_value (actual_value s) = s
get_value noop_value = ""

module _ {R : Type 0} (re : Regexp R) where
  -- One round of the first loop of `validate`.
  unfoldable pub definition_errors :
      String → ValueDefinition → Option ValidationTarget → List ValidationError
  unfolding skip
  definition_errors name def none =
      if def.constraints.required
      then record { name = name; cause = constraint_required } ∷ []
      else []
  definition_errors name def (some value) =
      if skip value then [] else validate_single re name def (get_value value)

  abbrev pub definition_errors_at :
      String → Option ValueDefinition → Option ValidationTarget → List ValidationError
  definition_errors_at name none value = []
  definition_errors_at name (some def) value = definition_errors name def value

  -- One round of the second loop.
  unfoldable pub no_definition_errors : List String → String → List ValidationError
  no_definition_errors names_from_def name =
      if contains names_from_def name then [] else record { name = name; cause = no_def } ∷ []

  -- The function `validate`, over the manifest and the targets.
  unfoldable pub validate :
      PackageManifest → List (String × ValidationTarget) → List ValidationError
  unfolding definition_errors no_definition_errors
  validate manifest values =
      collect
        (λ name. definition_errors_at name (get manifest.value_definitions name) (get values name))
        (keys manifest.value_definitions)
      ++ collect (no_definition_errors (keys manifest.value_definitions)) (keys values)
