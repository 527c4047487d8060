-- ===== src/Values/Witnesses.antt =====
-- The theorems about values, applied to the samples.
use glasskube.Base.{ℕ, ◌<◌, ◌≡◌, refl, ◌↔◌, true, none, some, [], ok, arith, is_some}
use glasskube.Assoc.{get, string_key}
use glasskube.Values.Validate.{validate}
use glasskube.Values.Accept.{Fits, validate-Fits}
use glasskube.Values.Resolver.{ValueConfiguration, PackageValueSource, resolve_value}
use glasskube.Values.Chain.{
  next, Resolves, inline, from_package, resolve_value_total, resolve_value_diverges,
  resolve_value_sound, resolve_value_complete,
}
use glasskube.Values.Samples.{
  exact, app, given, client, flat, literal, reference, resolved_host, program,
}

validate-Fits_example : (validate exact app given ≡ []) ↔ Fits exact app given
validate-Fits_example = validate-Fits exact app given

resolve_value_sound_example : Resolves client (reference "app" "db_host") "db.local"
resolve_value_sound_example =
    resolve_value_sound client 3 (reference "app" "db_host") "db.local" resolved_host

db_host : Resolves client (reference "db" "host") "db.local"
unfolding program next
db_host =
    from_package (record { name = "db"; value = "host" }) (literal "db.local") refl (inline refl)

resolve_value_complete_example :
    (fuel : ℕ) × (resolve_value client fuel (reference "db" "host") ≡ some (ok "db.local"))
resolve_value_complete_example =
    resolve_value_complete client (reference "db" "host") "db.local" db_host

-- The configuration that refers to itself.
abbrev Looping : ValueConfiguration → Type 0
Looping v = v ≡ reference "loop" "a"

Looping-next :
    (v : ValueConfiguration)
    → Looping v
    → (p : PackageValueSource) × (w : ValueConfiguration) × (next client v ≡ some (p, w))
      × Looping w
unfolding next program
Looping-next v e = (record { name = "loop"; value = "a" }, reference "loop" "a", rw e refl, refl)

resolve_value_diverges_example : resolve_value client 1000 (reference "loop" "a") ≡ none
resolve_value_diverges_example =
    resolve_value_diverges client Looping Looping-next 1000 (reference "loop" "a") refl

abbrev depth : ValueConfiguration → ℕ
depth v = elim v.value [ some s ↦ 0 | none ↦ 1 ]

depth-falls :
    (v : ValueConfiguration) (p : PackageValueSource) (w : ValueConfiguration)
    → next flat v ≡ some (p, w)
    → depth w < depth v
unfolding next get
depth-falls v p w e = ground arith

resolve_value_total_example : is_some (resolve_value flat 2 (reference "db" "host")) ≡ true
resolve_value_total_example =
    resolve_value_total flat depth depth-falls 2 (reference "db" "host") (omega arith)
