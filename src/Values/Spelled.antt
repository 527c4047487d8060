-- ===== src/Values/Spelled.antt =====
-- The syntax of the option --value, as its help describes it, and what ParseValues reads of it.
use Prim.Native.Char.{code}
use Prim.Native.String.{◌++◌ as append}
use text.Mathlib.TextLemmas.{cons-append}
use glasskube.Base.{
  String, ◌≡◌, refl, ap, ◌∙◌, Bool, true, false, Option, none, some, List, [], ◌∷◌, ◌==◌, map,
  str_eq, ok, if◌then◌else◌, Bool-cases, inl, inr, All,
}
use glasskube.Assoc.{get, put, get-put, string_key}
use glasskube.Text.{
  split_n, strip, has_prefix, IsFree, cut-append, strip-append, trim_prefix-append,
}
use glasskube.Manifest.{PackageManifest}
use glasskube.Values.Resolver.{ValueConfiguration, Values}
use glasskube.Values.Options.{
  ValuesOptions, inline_value, config_map_prefix, secret_prefix, package_prefix, source_parts,
  parse_object_key_value_source, parse_package_value_source, config_map_value, secret_value,
  package_value_of_source, parse_configuration, parse_option, parse_options, default_values,
  copy_values, parse_values,
}
use glasskube.Values.Defaults.{AreNamed, IsDefaultOf, default_values-IsDefaultOf}

-- What an option can give to a value.
pub data Given : Type 0 where
  inline : String → Given
  config_map secret : String → String → String → Given
  package_of : String → String → Given

abbrev pub comma : String → String → String
comma s t = append s (String.◌∷◌ "," t)

-- "$<ReferenceKind>$[<specifier>[,<specifier>...]]", or the value itself.
abbrev pub spell : Given → String
spell (inline v) = v
spell (config_map namespace name key) = append config_map_prefix (comma namespace (comma name key))
spell (secret namespace name key) = append secret_prefix (comma namespace (comma name key))
spell (package_of name value) = append package_prefix (comma name value)

abbrev pub configuration_of : Given → ValueConfiguration
configuration_of (inline v) = inline_value v
configuration_of (config_map namespace name key) =
    config_map_value (record { name = name; namespace = namespace; key = key })
configuration_of (secret namespace name key) =
    secret_value (record { name = name; namespace = namespace; key = key })
configuration_of (package_of name value) =
    package_value_of_source (record { name = name; value = value })

-- No specifier but the last has a comma, and a value of its own does not look like a reference.
abbrev pub IsSpellable : Given → Type 0
IsSpellable (inline v) =
    (has_prefix config_map_prefix v ≡ false)
    × (has_prefix secret_prefix v ≡ false)
    × (has_prefix package_prefix v ≡ false)
IsSpellable (config_map namespace name key) = IsFree "," namespace × IsFree "," name
IsSpellable (secret namespace name key) = IsFree "," namespace × IsFree "," name
IsSpellable (package_of name value) = IsFree "," name

-- Two texts differ at a place that both have.
clash : String → String → Bool
clash String.[] t = false
clash (String.◌∷◌ c s) String.[] = false
clash (String.◌∷◌ c s) (String.◌∷◌ d t) = if code c == code d then clash s t else true

strip_of_clash : (p q s : String) → clash p q ≡ true → strip p (append q s) ≡ none
unfolding clash strip
strip_of_clash String.[] q s h = cc
strip_of_clash (String.◌∷◌ c p) String.[] s h = cc
strip_of_clash (String.◌∷◌ c p) (String.◌∷◌ d q) s h = elim (Bool-cases (code c == code d)) [
  | inl same ↦ rw (cons-append d q s) (rw same (strip_of_clash p q s (rw same at h)))
  | inr other ↦ rw (cons-append d q s) (rw other refl)
]

three_parts :
    (prefix a b c : String)
    → IsFree "," a
    → IsFree "," b
    → source_parts (append prefix (comma a (comma b c))) prefix 3 ≡ a ∷ b ∷ c ∷ []
unfolding source_parts split_n
three_parts prefix a b c free_a free_b =
    rw
      (
        trim_prefix-append prefix (comma a (comma b c)),
        cut-append "," a (comma b c) free_a,
        cut-append "," b c free_b,
      )
      refl

two_parts :
    (prefix a b : String)
    → IsFree "," a
    → source_parts (append prefix (comma a b)) prefix 2 ≡ a ∷ b ∷ []
unfolding source_parts split_n
two_parts prefix a b free_a =
    rw (trim_prefix-append prefix (comma a b), cut-append "," a b free_a) refl

has_prefix-append : (p s : String) → has_prefix p (append p s) ≡ true
unfolding has_prefix
has_prefix-append p s = rw (strip-append p s) refl

not_has_prefix : (p q s : String) → clash p q ≡ true → has_prefix p (append q s) ≡ false
unfolding has_prefix
not_has_prefix p q s h = rw (strip_of_clash p q s h) refl

parse-spell :
    (given : Given)
    → IsSpellable given
    → parse_configuration (spell given) ≡ ok (configuration_of given)
unfolding parse_configuration parse_object_key_value_source parse_package_value_source clash
parse-spell (inline v) (a, b, c) = rw (a, b, c) refl
parse-spell (config_map namespace name key) (a, b) =
    rw
      (
        has_prefix-append config_map_prefix (comma namespace (comma name key)),
        three_parts config_map_prefix namespace name key a b,
      )
      refl
parse-spell (secret namespace name key) (a, b) =
    rw
      (
        not_has_prefix config_map_prefix secret_prefix (comma namespace (comma name key)) refl,
        has_prefix-append secret_prefix (comma namespace (comma name key)),
        three_parts secret_prefix namespace name key a b,
      )
      refl
parse-spell (package_of name value) a =
    rw
      (
        not_has_prefix config_map_prefix package_prefix (comma name value) refl,
        not_has_prefix secret_prefix package_prefix (comma name value) refl,
        has_prefix-append package_prefix (comma name value),
        two_parts package_prefix name value a,
      )
      refl

-- An option of the command line, and the entry that it stands for.
abbrev pub spell_option : String × Given → String
spell_option (key, given) = append key (String.◌∷◌ "=" (spell given))

abbrev pub entry_of : String × Given → String × ValueConfiguration
entry_of (key, given) = (key, configuration_of given)

abbrev pub IsOption : String × Given → Type 0
IsOption (key, given) = IsFree "=" key × IsSpellable given

-- What the last entry of the name holds, or else `before`.
abbrev pub latest : Values → String → Option ValueConfiguration → Option ValueConfiguration
latest [] name before = before
latest ((key, v) ∷ entries) name before =
    latest entries name (if str_eq key name then some v else before)

parse_option-spell :
    (key : String) (given : Given)
    → IsFree "=" key
    → IsSpellable given
    → parse_option (spell_option (key, given)) ≡ ok (key, configuration_of given)
unfolding parse_option
parse_option-spell key given free spellable =
    rw (cut-append "=" key (spell given) free, parse-spell given spellable) refl

get-copy_values :
    (vs entries : Values) (name : String)
    → get (copy_values vs entries) name ≡ latest entries name (get vs name)
unfolding copy_values
get-copy_values vs [] name = refl
get-copy_values vs ((key, v) ∷ entries) name =
    get-copy_values (put vs key v) entries name ∙ ap (latest entries name) (get-put vs key name v)

parse_options-spell :
    (options : List (String × Given)) (vs : Values)
    → All IsOption options
    → parse_options (map spell_option options) vs ≡ ok (copy_values vs (map entry_of options))
unfolding parse_options copy_values
parse_options-spell [] vs h = refl
parse_options-spell ((key, given) ∷ options) vs ((free, spellable), h) =
    rw (parse_option-spell key given free spellable)
      (parse_options-spell options (put vs key (configuration_of given)) h)

-- The old values that ParseValues keeps.
abbrev pub kept_values : ValuesOptions → Values → Values
kept_values opts old = if opts.keep_old_values then old else []

before-latest :
    (opts : ValuesOptions) (defaults old : Values) (name : String)
    → get (if opts.keep_old_values then copy_values defaults old else defaults) name
      ≡ latest (kept_values opts old) name (get defaults name)
before-latest opts defaults old name = elim (Bool-cases opts.keep_old_values) [
  | inl keeps ↦ rw keeps (get-copy_values defaults old name)
  | inr drops ↦ rw drops refl
]

-- Where every option is spelled as the help of --value says, and no two definitions have one name,
-- ParseValues succeeds, and each name has what the last option for it gives, or else its old value, if
-- these are kept, or else its default, if --use-default has the name or "all" and there is one.
pub parse_values-spell :
    (opts : ValuesOptions) (manifest : PackageManifest) (old : Values)
    (options : List (String × Given))
    → opts.values ≡ map spell_option options
    → All IsOption options
    → AreNamed manifest.value_definitions
    → (vs : Values) × (parse_values opts manifest old ≡ ok vs)
      × ((name : String)
          → (default : Option ValueConfiguration) × IsDefaultOf opts.use_default
              manifest.value_definitions name default
            × (get vs name
                ≡ latest (map entry_of options) name (latest (kept_values opts old) name default)))
unfolding parse_values
parse_values-spell opts manifest old options spelled h named =
    let defaults = default_values opts.use_default manifest.value_definitions [] in
    let before = if opts.keep_old_values then copy_values defaults old else defaults in
    (
      copy_values before (map entry_of options),
      rw spelled (parse_options-spell options before h),
      λ name. (
        get defaults name,
        default_values-IsDefaultOf opts.use_default manifest.value_definitions name named,
        get-copy_values before (map entry_of options) name
            ∙ ap (latest (map entry_of options) name) (before-latest opts defaults old name),
      ),
    )
