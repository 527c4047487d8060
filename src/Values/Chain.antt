-- ===== src/Values/Chain.antt =====
-- References from package to package: when resolution ends, and what it finds.
use glasskube.Base.{
  ℕ, zero, suc, ◌<◌, String, ◌≡◌, refl, Option, none, some, List, arith, Result, ok, err,
  Option-cases, Result-cases, true, is_some, sym, ◌∙◌, inl, inr,
}
use glasskube.Assoc.{get, string_key}
use glasskube.Values.Resolver.{
  ObjectKeyValueSource, PackageValueSource, ValueReference, ValueConfiguration, Values, Client,
  Resolution, wrapped, resolve_value,
}

abbrev pub Step : Type 0
Step = PackageValueSource × ValueConfiguration

module _ (client : Client) where
  abbrev found_in : PackageValueSource → Result String Values → Option Step
  found_in p (err e) = none
  found_in p (ok values) = elim (get values p.value) [ none ↦ none | some w ↦ some (p, w) ]

  abbrev next_package : Option PackageValueSource → Option Step
  next_package none = none
  next_package (some p) = found_in p (client.get_cluster_package p.name)

  -- The value of another package to which a configuration refers, if it does and that is there.
  unfoldable pub next : ValueConfiguration → Option Step
  next v = elim v.value [
    | some s ↦ none
    | none ↦ elim v.value_from [
      | none ↦ none
      | some ref ↦ elim ref.config_map_ref [
        | some c ↦ none
        | none ↦ elim ref.secret_ref [ some s ↦ none | none ↦ next_package ref.package_ref ]
      ]
    ]
  ]

  resolve_value-next :
      (fuel : ℕ) (v : ValueConfiguration) (p : PackageValueSource) (w : ValueConfiguration)
      → next v ≡ some (p, w)
      → resolve_value client (suc fuel) v ≡ wrapped p (resolve_value client fuel w)
  unfolding next resolve_value
  resolve_value-next fuel v p w e = ground arith

  -- A configuration that refers to no other resolves in one step.
  resolve_value-last :
      (fuel : ℕ) (v : ValueConfiguration)
      → next v ≡ none
      → is_some (resolve_value client (suc fuel) v) ≡ true
  unfolding next resolve_value
  resolve_value-last fuel v e = ground arith

  is_some-wrapped : (p : PackageValueSource) (r : Resolution) → is_some (wrapped p r) ≡ is_some r
  is_some-wrapped p r = ground arith

  -- If some rank falls along the references between packages, resolution returns a value or an
  -- error, with fuel for one call more than the rank.
  pub resolve_value_total :
      (rank : ValueConfiguration → ℕ)
      → ((v : ValueConfiguration) (p : PackageValueSource) (w : ValueConfiguration)
          → next v ≡ some (p, w)
          → rank w < rank v)
      → (fuel : ℕ) (v : ValueConfiguration) → rank v < fuel
      → is_some (resolve_value client fuel v) ≡ true
  resolve_value_total rank falls zero v enough = absurd (omega arith)
  resolve_value_total rank falls (suc fuel) v enough = elim (Option-cases (next v)) [
    | inl last ↦ resolve_value-last fuel v last
    | inr ((p, w), refers) ↦ rw (resolve_value-next fuel v p w refers) (
        is_some-wrapped p (resolve_value client fuel w)
        ∙ resolve_value_total rank falls fuel w (omega (arith, falls v p w refers)))
  ]

  -- References that lead back into a set of configurations of which each refers to one of the set
  -- are followed for ever: no amount of fuel gives a value or an error.
  pub resolve_value_diverges :
      (S : ValueConfiguration → Type 0)
      → ((v : ValueConfiguration)
          → S v
          → (p : PackageValueSource) × (w : ValueConfiguration) × (next v ≡ some (p, w)) × S w)
      → (fuel : ℕ) (v : ValueConfiguration) → S v
      → resolve_value client fuel v ≡ none
  unfolding resolve_value
  resolve_value_diverges S closed zero v in_s = refl
  resolve_value_diverges S closed (suc fuel) v in_s =
      let (p, w, refers, w_in_s) = closed v in_s in
      rw (resolve_value-next fuel v p w refers)
        (rw (resolve_value_diverges S closed fuel w w_in_s) refl)

  -- The values to which a configuration resolves: its own, the one under a key of a ConfigMap or of
  -- a Secret, or what the value of another package resolves to.
  pub data Resolves : ValueConfiguration → String → Type 0 where
    inline : {v : ValueConfiguration} {s : String} → v.value ≡ some s → Resolves v s
    from_config_map :
        {v : ValueConfiguration} {s : String} (ref : ValueReference) (c : ObjectKeyValueSource)
        (m : List (String × String))
        → v.value ≡ none
        → v.value_from ≡ some ref
        → ref.config_map_ref ≡ some c
        → client.get_config_map c.name c.namespace ≡ ok m
        → get m c.key ≡ some s
        → Resolves v s
    from_secret :
        {v : ValueConfiguration} {s : String} (ref : ValueReference) (c : ObjectKeyValueSource)
        (m : List (String × String))
        → v.value ≡ none
        → v.value_from ≡ some ref
        → ref.config_map_ref ≡ none
        → ref.secret_ref ≡ some c
        → client.get_secret c.name c.namespace ≡ ok m
        → get m c.key ≡ some s
        → Resolves v s
    from_package :
        {v : ValueConfiguration} {s : String} (p : PackageValueSource) (w : ValueConfiguration)
        → next v ≡ some (p, w)
        → Resolves w s
        → Resolves v s

  wrapped-ok :
      (p : PackageValueSource) (r : Resolution) (s : String)
      → wrapped p r ≡ some (ok s)
      → r ≡ some (ok s)
  wrapped-ok p r s e = ground arith

  Resolves-last :
      (fuel : ℕ) (v : ValueConfiguration) (s : String)
      → next v ≡ none
      → resolve_value client (suc fuel) v ≡ some (ok s)
      → Resolves v s
  unfolding next resolve_value
  Resolves-last fuel v s last e = elim (Option-cases v.value) [
    | inr (t, own) ↦ inline (ground arith)
    | inl no_value ↦ elim (Option-cases v.value_from) [
      | inl nothing ↦ absurd (ground arith)
      | inr (ref, from) ↦ elim (Option-cases ref.config_map_ref) [
        | inr (c, in_map) ↦ elim (Result-cases (client.get_config_map c.name c.namespace)) [
          | inl (m, got) ↦ from_config_map ref c m no_value from in_map got (ground arith)
          | inr (x, bad) ↦ absurd (ground arith)
        ]
        | inl no_map ↦ elim (Option-cases ref.secret_ref) [
          | inr (c, in_secret) ↦ elim (Result-cases (client.get_secret c.name c.namespace)) [
            | inl (m, got) ↦ from_secret ref c m no_value from no_map in_secret got (ground arith)
            | inr (x, bad) ↦ absurd (ground arith)
          ]
          | inl no_secret ↦ absurd (ground arith)
        ]
      ]
    ]
  ]

  -- What ResolveValue returns is a value to which the configuration resolves.
  pub resolve_value_sound :
      (fuel : ℕ) (v : ValueConfiguration) (s : String)
      → resolve_value client fuel v ≡ some (ok s)
      → Resolves v s
  unfolding resolve_value
  resolve_value_sound zero v s e = cc
  resolve_value_sound (suc fuel) v s e = elim (Option-cases (next v)) [
    | inl last ↦ Resolves-last fuel v s last e
    | inr ((p, w), refers) ↦ from_package p w refers (
        resolve_value_sound fuel w s
          (wrapped-ok p _ s (sym (resolve_value-next fuel v p w refers) ∙ e)))
  ]

  -- Every value to which a configuration resolves is returned, with enough fuel.
  pub resolve_value_complete :
      (v : ValueConfiguration) (s : String)
      → Resolves v s
      → (fuel : ℕ) × (resolve_value client fuel v ≡ some (ok s))
  unfolding resolve_value
  resolve_value_complete v s (inline own) = (1, ground arith)
  resolve_value_complete v s (from_config_map ref c m no_value from in_map got at_key) =
      (1, ground arith)
  resolve_value_complete v s (from_secret ref c m no_value from no_map in_secret got at_key) =
      (1, ground arith)
  resolve_value_complete v s (from_package p w refers rest) =
      let (fuel, returned) = resolve_value_complete w s rest in
      (suc fuel, rw (resolve_value-next fuel v p w refers) (rw returned refl))
