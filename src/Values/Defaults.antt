-- ===== src/Values/Defaults.antt =====
-- The default values that the option --use-default asks for: ParseValues of
-- internal/manifestvalues/cli/values_options.go.
use glasskube.Base.{
  String, ◌≡◌, ◌≢◌, ◌⊎◌, ◌↔◌, refl, sym, ap, ◌∙◌, true, false, ◌||◌, Option, none, some, List, [],
  ◌∷◌, str_eq, eq_iff, if◌then◌else◌, Bool-cases, inl, inr, IsIn, here, there, arith,
}
use mathlib.Core.Path.{subst}
use mathlib.Core.Option.{some-injective}
use glasskube.Assoc.{get, put, get-put, string_key}
use glasskube.Manifest.{ValueDefinition}
use glasskube.Values.Resolver.{ValueConfiguration, Values}
use glasskube.Values.Options.{inline_value, should_use_default, default_values}

-- No two definitions have one name, as in a Go map.
abbrev pub AreNamed : List (String × ValueDefinition) → Type 0
AreNamed [] = Unit {0}
AreNamed ((name, def) ∷ defs) = (get defs name ≡ none) × AreNamed defs

-- --use-default has the name or "all", and the definition has a default.
abbrev pub IsAskedFor : List String → String → ValueDefinition → Type 0
IsAskedFor use_default name def =
    (IsIn "all" use_default ⊎ IsIn name use_default) × (def.default_value ≢ "")

-- What the name has by default: the default of its definition where this is asked for, and nothing
-- where it is not.
abbrev pub IsDefaultOf :
    List String → List (String × ValueDefinition) → String → Option ValueConfiguration → Type 0
IsDefaultOf use_default defs name o =
    (v : ValueConfiguration)
    → (o ≡ some v) ↔ (
        (def : ValueDefinition) × (get defs name ≡ some def)
        × IsAskedFor use_default name def
        × (inline_value def.default_value ≡ v))

should_use_default-IsAskedFor :
    (use_default : List String) (name : String) (def : ValueDefinition)
    → should_use_default use_default name def ≡ true
    → IsAskedFor use_default name def
unfolding should_use_default
should_use_default-IsAskedFor [] name def e = cc
should_use_default-IsAskedFor (v ∷ vs) name def e = elim (Bool-cases (str_eq v "all")) [
  | inl is_all ↦ (
    inl (here ((eq_iff v "all").0 is_all)),
    λ empty. ground (arith, rw is_all at e, (eq_iff def.default_value "").1 empty),
  )
  | inr other ↦ elim (Bool-cases (str_eq v name)) [
    | inl is_name ↦ (
      inr (here ((eq_iff v name).0 is_name)),
      λ empty. ground (arith, rw (other, is_name) at e, (eq_iff def.default_value "").1 empty),
    )
    | inr away ↦
        let (listed, full) = should_use_default-IsAskedFor vs name def (rw (other, away) at e) in
        (elim listed [ inl m ↦ inl (there m) | inr m ↦ inr (there m) ], full)
  ]
]

IsAskedFor-should_use_default :
    (use_default : List String) (name : String) (def : ValueDefinition)
    → IsAskedFor use_default name def
    → should_use_default use_default name def ≡ true
unfolding should_use_default
IsAskedFor-should_use_default [] name def (listed, full) = elim listed [
  | inl m ↦ elim m [ ]
  | inr m ↦ elim m [ ]
]
IsAskedFor-should_use_default (v ∷ vs) name def (listed, full) =
    elim (Bool-cases (str_eq v "all" || str_eq v name)) [
      | inl asked ↦ rw asked (ground (arith, eq_iff def.default_value "", full))
      | inr other ↦ rw other (
          IsAskedFor-should_use_default vs name def (
            elim listed [
              | inl m ↦ elim m [
                | here e ↦ cc (rw ((eq_iff v "all").1 e) at other)
                | there n ↦ inl n
              ]
              | inr m ↦ elim m [
                | here e ↦ ground (arith, (eq_iff v name).1 e, other)
                | there n ↦ inr n
              ]
            ],
            full,
          ))
    ]

abbrev after_default :
    List String
    → String
    → Option ValueDefinition
    → Option ValueConfiguration
    → Option ValueConfiguration
after_default use_default name none before = before
after_default use_default name (some def) before =
    if should_use_default use_default name def
    then some (inline_value def.default_value)
    else before

-- What one round of the loop writes.
abbrev with_default : List String → String → ValueDefinition → Values → Values
with_default use_default name def vs =
    if should_use_default use_default name def
    then put vs name (inline_value def.default_value)
    else vs

get-with_default_self :
    (use_default : List String) (name : String) (def : ValueDefinition) (vs : Values)
    → get (with_default use_default name def vs) name
      ≡ after_default use_default name (some def) (get vs name)
get-with_default_self use_default name def vs =
    elim (Bool-cases (should_use_default use_default name def)) [
      | inl asked ↦ rw asked (
          get-put vs name name (inline_value def.default_value)
          ∙ (rw ((eq_iff name name).1 refl) refl))
      | inr not_asked ↦ rw not_asked refl
    ]

get-with_default_other :
    (use_default : List String) (key name : String) (def : ValueDefinition) (vs : Values)
    → str_eq key name ≡ false
    → get (with_default use_default key def vs) name ≡ get vs name
get-with_default_other use_default key name def vs away =
    elim (Bool-cases (should_use_default use_default key def)) [
      | inl asked ↦ rw asked (get-put vs key name (inline_value def.default_value) ∙ (rw away refl))
      | inr not_asked ↦ rw not_asked refl
    ]

get-default_values :
    (use_default : List String) (defs : List (String × ValueDefinition)) (vs : Values)
    (name : String)
    → AreNamed defs
    → get (default_values use_default defs vs) name
      ≡ after_default use_default name (get defs name) (get vs name)
unfolding default_values get
get-default_values use_default [] vs name named = refl
get-default_values use_default ((key, def) ∷ defs) vs name (once, named) =
    let rest =
      get-default_values use_default defs (with_default use_default key def vs) name named in
    elim (Bool-cases (str_eq key name)) [
      | inr away ↦ rw away (
          rest
          ∙ ap (after_default use_default name (get defs name))
              (get-with_default_other use_default key name def vs away))
      | inl same ↦
          let is_name = (eq_iff key name).0 same in
          let no_other = ap (get defs) (sym is_name) ∙ once in
          rw same (
            rest
            ∙ ap
                (λ (o : Option ValueDefinition).
                  after_default use_default name o (get (with_default use_default key def vs) name))
                no_other
            ∙ subst
                (λ (n : String).
                  get (with_default use_default key def vs) n
                  ≡ after_default use_default n (some def) (get vs n))
                is_name (get-with_default_self use_default key def vs))
    ]

by_default :
    (use_default : List String) (name : String) (o : Option ValueDefinition)
    (v : ValueConfiguration)
    → (after_default use_default name o none ≡ some v) ↔ (
        (def : ValueDefinition) × (o ≡ some def)
        × IsAskedFor use_default name def
        × (inline_value def.default_value ≡ v))
by_default use_default name none v = (λ e. cc e, λ (def, e, _, _). cc e)
by_default use_default name (some def) v =
    elim (Bool-cases (should_use_default use_default name def)) [
      | inl asked ↦ rw asked (
        λ e. (
          def,
          refl,
          should_use_default-IsAskedFor use_default name def asked,
          some-injective _ _ e,
        ),
        λ (def', is_def, _, is_v).
            ap (λ (d : ValueDefinition). some (inline_value d.default_value))
              (some-injective _ _ is_def)
            ∙ ap (λ (x : ValueConfiguration). some x) is_v,
      )
      | inr not_asked ↦ rw not_asked (
        λ e. cc e,
        λ (def', is_def, is_asked, _).
            let same : def' ≡ def = sym (some-injective _ _ is_def) in
            let asked =
              IsAskedFor-should_use_default use_default name def
                (subst (IsAskedFor use_default name) same is_asked) in
            cc (asked, not_asked),
      )
    ]

-- After the loop over the definitions, every name has what it has by default.
pub default_values-IsDefaultOf :
    (use_default : List String) (defs : List (String × ValueDefinition)) (name : String)
    → AreNamed defs
    → IsDefaultOf use_default defs name (get (default_values use_default defs []) name)
unfolding get
default_values-IsDefaultOf use_default defs name named v =
    rw (get-default_values use_default defs [] name named)
      (by_default use_default name (get defs name) v)
