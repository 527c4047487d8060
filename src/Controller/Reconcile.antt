-- ===== src/Controller/Reconcile.antt =====
-- reconcile, reconcilePackageInfoReady, reconcileSuspended and reconcileAfterDeletion of
-- internal/controller/common.go. Logs, events and telemetry are left out.
use glasskube.Base.{
  ℕ, String, Bool, true, false, not, Option, none, some, List, [], ◌∷◌, ◌++◌, Result, ok, err,
  ◌>>=◌, if◌then◌else◌, is_empty,
}
use glasskube.Assoc.{string_key}
use glasskube.Manifest.{PackageManifest, TransformationSource}
use glasskube.Values.Validate.{Regexp, ValidationError}
use glasskube.Values.Resolver.{Client, ResolveError, resolve, validate_resolved_values}
use glasskube.Patch.Target.{PatchLibrary, TargetPatch}
use glasskube.Patch.Generate.{generate_patches, resolve_and_generate_patches}
use glasskube.Controller.Types.{ReconciledPackage, PackageInfo, Context}
use glasskube.Controller.Finalize.{
  Env, Outcome, fail, finalize, finalize_no_requeue, finalize_with_error,
}
use glasskube.Controller.Adapters.{
  Adapters, Adapter, Halt, with_error, unsupported, adapters_to_run, ReconcileResult, Ran,
  run_adapters, handle_adapter_results, after_success,
}
use glasskube.Controller.Required.{DependencyEnv}
use glasskube.Controller.Dependencies.{ensure_dependencies}

-- What the reconciliation of values and manifests takes from elsewhere: Go's regexp, the clients of
-- the value resolver with its fuel, the patch library, the resolver of transformation sources, the
-- sort of maputils.KeysSorted, the adapters, and texts of errors.
pub record ValueEnv (W S R J T P : Type 0) : Type 0 where
  pub regexp : Regexp R
  pub value_client : W → Client
  pub value_fuel : ℕ
  pub patch_library : PatchLibrary J T P
  pub resolve_source : W → ReconciledPackage S → TransformationSource → Result String J
  pub sort_names : List String → List String
  pub adapters : Adapters W S P
  pub not_resolved : List (String × ResolveError) → String
  pub not_valid : List ValidationError → String

-- What a reconciliation leaves and returns; `none` if it does not return.
abbrev pub Reconciled : Type 0 → Type 0 → Type 0
Reconciled W S = Option (Context W S × Outcome)

module _ {W S R J T P : Type 0} (env : Env W S) (vals : ValueEnv W S R J T P) where
  -- The values of a package, once they are resolved.
  unfoldable pub check_resolved :
      PackageManifest
      → List (String × String) × List (String × ResolveError)
      → Result Halt (List (String × String))
  unfolding validate_resolved_values
  check_resolved m (values, errors) =
      let invalid = validate_resolved_values vals.regexp m values in
      if not (is_empty errors)
      then err (
          with_error "ValueConfigurationInvalid" (vals.not_resolved errors)
            (vals.not_resolved errors ∷ []))
      else if not (is_empty invalid)
      then err (
          with_error "ValueConfigurationInvalid" (vals.not_valid invalid)
            (vals.not_valid invalid ∷ []))
      else ok values

  abbrev pub installing : {A : Type 0} → Result String A → Result Halt A
  installing (ok a) = ok a
  installing (err e) = err (with_error "InstallationFailed" e (e ∷ []))

  -- The patches and the adapters of the manifest, or the return before any adapter runs.
  unfoldable pub prepare_manifest :
      PackageManifest
      → Context W S
      → List (String × String) × List (String × ResolveError)
      → Result Halt (List (TargetPatch P) × List (Adapter W S P))
  unfolding check_resolved generate_patches resolve_and_generate_patches adapters_to_run
  prepare_manifest m c resolved = check_resolved m resolved >>= λ values.
      installing (generate_patches vals.patch_library vals.sort_names m values) >>= λ ps.
      installing
        (resolve_and_generate_patches vals.patch_library (vals.resolve_source c.world c.pkg) m)
      >>= λ qs. adapters_to_run vals.adapters m >>= λ adapters. ok (ps ++ qs, adapters)

  abbrev pub halt : Context W S → Halt → Context W S × Outcome
  halt c (with_error reason message errs) = finalize_with_error env errs (fail env reason message c)
  halt c (unsupported message) = finalize_no_requeue env (fail env "UnsupportedFormat" message c)

  abbrev pub concluded :
      PackageInfo S → List ReconcileResult → Context W S × Bool → Context W S × Outcome
  concluded pi results (c, false) = finalize env c
  concluded pi results (c, true) = finalize env (after_success env pi results c)

  -- After the loop over the adapters.
  unfoldable pub conclude : PackageInfo S → Ran W S → Context W S × Outcome
  unfolding finalize finalize_with_error fail handle_adapter_results after_success
  conclude pi (c, results, []) = concluded pi results (handle_adapter_results env results c)
  conclude pi (c, results, e ∷ es) =
      finalize_with_error env (e ∷ es) (fail env "InstallationFailed" (env.combined (e ∷ es)) c)

  abbrev pub run :
      PackageInfo S
      → Context W S
      → Result Halt (List (TargetPatch P) × List (Adapter W S P))
      → Context W S × Outcome
  run pi c (err h) = halt c h
  run pi c (ok (patches, adapters)) = conclude pi (run_adapters pi patches adapters (c, [], []))

  abbrev pub with_values :
      PackageInfo S
      → PackageManifest
      → Context W S
      → Option (List (String × String) × List (String × ResolveError))
      → Reconciled W S
  with_values pi m c none = none
  with_values pi m c (some resolved) = some (run pi c (prepare_manifest m c resolved))

  abbrev pub after_dependencies :
      PackageInfo S → PackageManifest → Option (Context W S × Bool) → Reconciled W S
  after_dependencies pi m none = none
  after_dependencies pi m (some (c, false)) = some (finalize env c)
  after_dependencies pi m (some (c, true)) =
      with_values pi m c (resolve (vals.value_client c.world) vals.value_fuel c.pkg.values)

  module _ {V C : Type 0} (deps : DependencyEnv W S V C) where
    -- reconcilePackageInfoReady
    unfoldable pub reconcile_package_info_ready : PackageInfo S → Context W S → Reconciled W S
    unfolding ensure_dependencies resolve prepare_manifest run_adapters conclude finalize
        finalize_no_requeue finalize_with_error fail
    reconcile_package_info_ready pi c = elim pi.manifest [
      | none ↦
          some (finalize_no_requeue env (fail env "UnsupportedFormat" "manifest must not be nil" c))
      | some m ↦ after_dependencies pi m (ensure_dependencies env deps m c)
    ]
