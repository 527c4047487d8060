-- ===== src/Values/Accept.antt =====
-- What the validators accept, and that the code accepts exactly that.
use Prim.Native.String.{len}
use glasskube.Base.{
  String, ◌≡◌, refl, sym, ◌∙◌, Bool, true, false, ◌↔◌, Option, none, some, List, [], ◌∷◌, arith,
  str_eq, eq_iff, is_some, Bool-cases, Option-cases, inl, inr, append-eq-nil,
}
use glasskube.Base.Int.{ℤ, pos, ◌≤ℤ◌}
use glasskube.Assoc.{
  get, keys, collect, contains, contains-keys, contains-keys_of_get, collect-nil, collect-eq-nil,
  string_key,
}
use glasskube.Strconv.{atoi, parse_bool}
use glasskube.Manifest.{ValueDefinition, PackageManifest}
use glasskube.Values.Validate.{
  Regexp, ValidateFn, ValueError, validate_min_length, validate_max_length, validate_format_number,
  validate_format_boolean, validate_min, validate_max, validate_options, validate_pattern,
  validators_for_type, run_validators, validation_error, validate_single, ValidationTarget,
  ValidationError, actual_value, noop_value, definition_errors, definition_errors_at,
  no_definition_errors, validate,
}

-- `x` is at most the bound, if there is one.
abbrev pub AtMost : ℤ → Option ℤ → Type 0
AtMost x none = Unit
AtMost x (some n) = x ≤ℤ n

abbrev pub AtLeast : ℤ → Option ℤ → Type 0
AtLeast x none = Unit
AtLeast x (some n) = n ≤ℤ x

validation_error-eq-nil :
    (name : String) (es : List ValueError) → (validation_error name es ≡ []) ↔ (es ≡ [])
validation_error-eq-nil name [] = (λ e. refl, λ e. refl)
validation_error-eq-nil name (x ∷ es) = (λ e. cc, λ e. cc)

module _ {R : Type 0} (re : Regexp R) where
  abbrev IsMatch : Option R → String → Type 0
  IsMatch none value = ⊥
  IsMatch (some r) value = re.match_string r value ≡ true

  -- The pattern, if there is one, is a regular expression that matches the value.
  abbrev FitsPattern : Option String → String → Type 0
  FitsPattern none value = Unit
  FitsPattern (some p) value = IsMatch (re.compile p) value

  pub record IsText (def : ValueDefinition) (value : String) : Type 0 where
    pub short : AtMost (pos (len value)) def.constraints.max_length
    pub long : AtLeast (pos (len value)) def.constraints.min_length
    pub pattern : FitsPattern def.constraints.pattern value

  pub record IsNumber (def : ValueDefinition) (value : String) : Type 0 where
    pub number : ℤ
    pub parsed : atoi value ≡ some number
    pub min : AtLeast number def.constraints.min
    pub max : AtMost number def.constraints.max
    pub pattern : FitsPattern def.constraints.pattern value

  -- A value that is right for its definition, by the definition's type.
  pub data Accepts (def : ValueDefinition) (value : String) : Type 0 where
    text : def.type ≡ "text" → IsText def value → Accepts def value
    number : def.type ≡ "number" → IsNumber def value → Accepts def value
    options : def.type ≡ "options" → contains def.options value ≡ true → Accepts def value
    boolean : {b : Bool} → def.type ≡ "boolean" → parse_bool value ≡ some b → Accepts def value

  module _ (def : ValueDefinition) (value : String) where
    min_length_iff :
        (validate_min_length def value ≡ []) ↔ AtLeast (pos (len value)) def.constraints.min_length
    unfolding validate_min_length
    min_length_iff = (λ e. ground arith, λ e. ground arith)

    max_length_iff :
        (validate_max_length def value ≡ []) ↔ AtMost (pos (len value)) def.constraints.max_length
    unfolding validate_max_length
    max_length_iff = (λ e. ground arith, λ e. ground arith)

    min_iff :
        (i : ℤ)
        → atoi value ≡ some i
        → (validate_min def value ≡ []) ↔ AtLeast i def.constraints.min
    unfolding validate_min
    min_iff i p = (λ e. ground arith, λ e. ground arith)

    max_iff :
        (i : ℤ) → atoi value ≡ some i → (validate_max def value ≡ []) ↔ AtMost i def.constraints.max
    unfolding validate_max
    max_iff i p = (λ e. ground arith, λ e. ground arith)

    pattern_iff : (validate_pattern re def value ≡ []) ↔ FitsPattern def.constraints.pattern value
    unfolding validate_pattern
    pattern_iff = (λ e. ground arith, λ e. ground arith)

    IsText-iff :
        (run_validators
            (validate_max_length ∷ validate_min_length ∷ validate_pattern re ∷ [])
            def
            value
          ≡ [])
        ↔ IsText def value
    unfolding run_validators collect
    IsText-iff = (
      λ e.
          let a = append-eq-nil (validate_max_length def value) _ e in
          let b = append-eq-nil (validate_min_length def value) _ a.1 in
          let c = append-eq-nil (validate_pattern re def value) _ b.1 in
          record {
            short = max_length_iff.0 a.0;
            long = min_length_iff.0 b.0;
            pattern = pattern_iff.0 c.0;
          },
      λ t. rw (max_length_iff.1 t.short, min_length_iff.1 t.long, pattern_iff.1 t.pattern) refl,
    )

    IsNumber-iff :
        (run_validators
            (validate_format_number ∷ validate_min ∷ validate_max ∷ validate_pattern re ∷ [])
            def
            value
          ≡ [])
        ↔ IsNumber def value
    unfolding run_validators collect validate_format_number
    IsNumber-iff = (
      λ e.
          let a = append-eq-nil (validate_format_number def value) _ e in
          let b = append-eq-nil (validate_min def value) _ a.1 in
          let c = append-eq-nil (validate_max def value) _ b.1 in
          let d = append-eq-nil (validate_pattern re def value) _ c.1 in
          elim (Option-cases (atoi value)) [
            | inl bad ↦ absurd (ground (arith, bad, a.0))
            | inr (i, parsed) ↦ record {
              number = i;
              parsed = parsed;
              min = (min_iff i parsed).0 b.0;
              max = (max_iff i parsed).0 c.0;
              pattern = pattern_iff.0 d.0;
            }
          ],
      λ t.
          rw (t.parsed, validate_format_number)
            (rw ((min_iff t.number t.parsed).1 t.min)
              (rw ((max_iff t.number t.parsed).1 t.max) (rw (pattern_iff.1 t.pattern) refl))),
    )

    options_iff :
        (run_validators (validate_options ∷ []) def value ≡ [])
        ↔ (contains def.options value ≡ true)
    unfolding run_validators collect validate_options
    options_iff = (λ e. ground arith, λ e. ground arith)

    not_boolean :
        {A : Type 0}
        → parse_bool value ≡ none
        → run_validators (validate_format_boolean ∷ []) def value ≡ []
        → A
    unfolding run_validators collect validate_format_boolean
    not_boolean bad e = absurd (ground (arith, bad))

    boolean_iff :
        (run_validators (validate_format_boolean ∷ []) def value ≡ [])
        ↔ ((b : Bool) × (parse_bool value ≡ some b))
    unfolding run_validators collect validate_format_boolean
    boolean_iff = elim (Option-cases (parse_bool value)) [
      | inl bad ↦ (λ e. not_boolean bad e, λ h. absurd (ground (arith, bad, h.1)))
      | inr (b, good) ↦ (λ e. (b, good), λ h. rw (good, validate_format_boolean) refl)
    ]

    -- The validators of the type decide.
    single_of_validators :
        (name : String) (fns : List ValidateFn)
        → validators_for_type re def.type ≡ some fns
        → (validate_single re name def value ≡ []) ↔ (run_validators fns def value ≡ [])
    unfolding validate_single
    single_of_validators name fns e =
        rw (e, validate_single) (validation_error-eq-nil name (run_validators fns def value))

    unknown_type :
        (name : String)
        → validators_for_type re def.type ≡ none
        → validate_single re name def value ≡ []
        → ⊥
    unfolding validate_single
    unknown_type name unknown e = cc (rw (unknown, validate_single) at e)

    Accepts-of_no_errors :
        (name : String) → validate_single re name def value ≡ [] → Accepts def value
    unfolding validators_for_type
    Accepts-of_no_errors name e = elim (Bool-cases (str_eq def.type "text")) [
      | inl t ↦
          text ((eq_iff def.type "text").0 t)
            (IsText-iff.0 ((single_of_validators name _ (rw t refl)).0 e))
      | inr not_text ↦ elim (Bool-cases (str_eq def.type "number")) [
        | inl t ↦
            number ((eq_iff def.type "number").0 t)
              (IsNumber-iff.0 ((single_of_validators name _ (rw not_text (rw t refl))).0 e))
        | inr not_number ↦ elim (Bool-cases (str_eq def.type "options")) [
          | inl t ↦ options ((eq_iff def.type "options").0 t) (
              options_iff.0
                ((single_of_validators name _ (rw not_text (rw not_number (rw t refl)))).0 e))
          | inr not_options ↦ elim (Bool-cases (str_eq def.type "boolean")) [
            | inl t ↦
                let good = boolean_iff.0 (
                  (single_of_validators name _
                      (rw not_text (rw not_number (rw not_options (rw t refl))))).0
                    e) in
                boolean ((eq_iff def.type "boolean").0 t) good.1
            | inr not_boolean ↦ absurd (
                unknown_type name
                  (rw not_text (rw not_number (rw not_options (rw not_boolean refl)))) e)
          ]
        ]
      ]
    ]

    validate_single-nil :
        (name : String) → Accepts def value → validate_single re name def value ≡ []
    unfolding validators_for_type
    validate_single-nil name (text t h) =
        (single_of_validators name _ (rw t refl)).1 (IsText-iff.1 h)
    validate_single-nil name (number t h) =
        (single_of_validators name _ (rw t refl)).1 (IsNumber-iff.1 h)
    validate_single-nil name (options t h) =
        (single_of_validators name _ (rw t refl)).1 (options_iff.1 h)
    validate_single-nil name (boolean {b = b} t h) =
        (single_of_validators name _ (rw t refl)).1 (boolean_iff.1 (b, h))

  -- `ValidateSingle` has no error exactly when the type of the definition is known and the value
  -- satisfies what that type asks for.
  pub validate_single_iff :
      (name : String) (def : ValueDefinition) (value : String)
      → (validate_single re name def value ≡ []) ↔ Accepts def value
  validate_single_iff name def value =
      (Accepts-of_no_errors def value name, validate_single-nil def value name)

  -- The target is skipped, or its value is accepted.
  abbrev pub AcceptsTarget : ValueDefinition → ValidationTarget → Type 0
  AcceptsTarget def noop_value = Unit
  AcceptsTarget def (actual_value s) = Accepts def s

  -- A configuration that fits the manifest: every defined value is accepted, or not given and not
  -- required, and every given value is defined.
  pub record Fits (manifest : PackageManifest) (values : List (String × ValidationTarget))
      : Type 0 where
    pub given :
        (name : String) (def : ValueDefinition) (t : ValidationTarget)
        → get manifest.value_definitions name ≡ some def
        → get values name ≡ some t
        → AcceptsTarget def t
    pub missing :
        (name : String) (def : ValueDefinition)
        → get manifest.value_definitions name ≡ some def
        → get values name ≡ none
        → def.constraints.required ≡ false
    pub defined :
        (name : String)
        → is_some (get values name) ≡ true
        → is_some (get manifest.value_definitions name) ≡ true

  target_iff :
      (name : String) (def : ValueDefinition) (t : ValidationTarget)
      → (definition_errors re name def (some t) ≡ []) ↔ AcceptsTarget def t
  unfolding definition_errors
  target_iff name def noop_value = (λ e. tt, λ h. refl)
  target_iff name def (actual_value s) = validate_single_iff name def s

  missing_iff :
      (name : String) (def : ValueDefinition)
      → (definition_errors re name def none ≡ []) ↔ (def.constraints.required ≡ false)
  unfolding definition_errors
  missing_iff name def = (λ e. ground arith, λ e. ground arith)

  defined_iff :
      (manifest : PackageManifest) (name : String)
      → (no_definition_errors re (keys manifest.value_definitions) name ≡ [])
        ↔ (is_some (get manifest.value_definitions name) ≡ true)
  unfolding no_definition_errors
  defined_iff manifest name = (
    λ e. ground (arith, contains-keys manifest.value_definitions name),
    λ e. ground (arith, contains-keys manifest.value_definitions name),
  )

  module _ (manifest : PackageManifest) (values : List (String × ValidationTarget)) where
    -- The two loops of `validate`.
    abbrev at_name : String → List ValidationError
    at_name n = definition_errors_at re n (get manifest.value_definitions n) (get values n)

    abbrev undefined_at : String → List ValidationError
    undefined_at = no_definition_errors re (keys manifest.value_definitions)

    Fits-of_loops :
        collect at_name (keys manifest.value_definitions) ≡ []
        → collect undefined_at (keys values) ≡ []
        → Fits manifest values
    Fits-of_loops none_in_defs none_in_values = record {
      given = λ name def t at_def at_value.
          (target_iff name def t).0 (rw at_value at (rw at_def at (at_definition name at_def)));
      missing = λ name def at_def absent.
          (missing_iff name def).0 (rw absent at (rw at_def at (at_definition name at_def)));
      defined = λ name present. (defined_iff manifest name).0 (
          collect-eq-nil undefined_at (keys values) name none_in_values
            (contains-keys values name ∙ present));
    }
      where
        at_definition :
            (name : String) {def : ValueDefinition}
            → get manifest.value_definitions name ≡ some def
            → at_name name ≡ []
        at_definition name at_def =
            collect-eq-nil at_name (keys manifest.value_definitions) name none_in_defs
              (contains-keys_of_get manifest.value_definitions name at_def)

    at_name-nil : Fits manifest values → (name : String) → at_name name ≡ []
    at_name-nil fits name = elim (Option-cases (get manifest.value_definitions name)) [
      | inl absent ↦ rw absent refl
      | inr (def, at_def) ↦ elim (Option-cases (get values name)) [
        | inl missing ↦
            rw at_def (rw missing ((missing_iff name def).1 (fits.missing name def at_def missing)))
        | inr (t, given) ↦
            rw at_def (rw given ((target_iff name def t).1 (fits.given name def t at_def given)))
      ]
    ]

    -- `validate` has no error exactly when the configuration fits the manifest.
    pub validate-Fits : (validate re manifest values ≡ []) ↔ Fits manifest values
    unfolding validate
    validate-Fits = (
      λ e.
          let both = append-eq-nil (collect at_name (keys manifest.value_definitions)) _ e in
          Fits-of_loops both.0 both.1,
      λ fits.
          rw
            (collect-nil at_name (keys manifest.value_definitions)
              (λ name visited. at_name-nil fits name))
            (collect-nil undefined_at (keys values) (λ name visited.
              (defined_iff manifest name).1
                (fits.defined name (sym (contains-keys values name) ∙ visited)))),
    )
