-- ===== src/Controller/Adapters.antt =====
-- The manifest adapters of a package and their results: internal/manifest/result, and the parts of
-- reconcilePackageInfoReady, handleAdapterResults and afterSuccess of internal/controller/common.go.
-- An adapter is a parameter, the interface manifest.ManifestAdapter.
use glasskube.Base.{
  String, Bool, true, false, not, ◌&&◌, Option, none, some, List, [], ◌∷◌, ◌++◌, str_eq, Result, ok,
  err, ◌>>=◌, if◌then◌else◌, is_some, is_empty, map,
}
use glasskube.Manifest.{PackageManifest}
use glasskube.Owners.OwnedResources.{OwnedResourceRef, add}
use glasskube.Patch.Target.{TargetPatch}
use glasskube.Controller.Conditions.{set_unknown, set_ready}
use glasskube.Controller.Types.{PackageInfo, ReconciledPackage, Context}
use glasskube.Controller.Finalize.{Env, fail, with_conditions, set_should_update}

pub data ResultKind : Type 0 where
  ready_result waiting_result failed_result : ResultKind

pub record ReconcileResult : Type 0 where
  pub kind : ResultKind
  pub message : String
  pub owned_resources : List OwnedResourceRef

abbrev pub is_waiting : ReconcileResult → Bool
is_waiting r = elim r.kind [ waiting_result ↦ true | _ ↦ false ]

abbrev pub is_failed : ReconcileResult → Bool
is_failed r = elim r.kind [ failed_result ↦ true | _ ↦ false ]

-- ManifestAdapter.Reconcile
abbrev pub Adapter : Type 0 → Type 0 → Type 0 → Type 0
Adapter W S P =
    W
    → ReconciledPackage S
    → PackageInfo S
    → List (TargetPatch P)
    → W × Result String ReconcileResult

-- The adapters of the controller, of which each may be nil.
pub record Adapters (W S P : Type 0) : Type 0 where
  pub manifest_adapter : Option (Adapter W S P)
  pub kustomize_adapter : Option (Adapter W S P)
  pub helm_adapter : Option (Adapter W S P)

-- A return before the adapters run: by finalizeWithError or by finalizeNoRequeue.
pub data Halt : Type 0 where
  with_error : String → String → List String → Halt
  unsupported : String → Halt

module _ {W S P : Type 0} (adapters : Adapters W S P) where
  abbrev pub selected : Bool → Option (Adapter W S P) → String → Result Halt (List (Adapter W S P))
  selected false adapter message = ok []
  selected true none message = err (unsupported message)
  selected true (some adapter) message = ok (adapter ∷ [])

  -- adaptersToRun
  unfoldable pub adapters_to_run : PackageManifest → Result Halt (List (Adapter W S P))
  adapters_to_run m =
      selected (not (is_empty m.manifests)) adapters.manifest_adapter "manifests not supported"
      >>= λ a.
          selected (is_some m.kustomize) adapters.kustomize_adapter "kustomize not supported"
          >>= λ b. selected (is_some m.helm) adapters.helm_adapter "helm not supported" >>= λ c.
              ok (a ++ b ++ c)

-- The loop that runs the adapters: the context, the results and the errors.
abbrev pub Ran : Type 0 → Type 0 → Type 0
Ran W S = Context W S × List ReconcileResult × List String

module _ {W S P : Type 0} (pi : PackageInfo S) (patches : List (TargetPatch P)) where
  abbrev pub with_result : W × Result String ReconcileResult → Ran W S → Ran W S
  with_result (w, err e) (c, results, errs) = (record c { world = w }, results, errs ++ e ∷ [])
  with_result (w, ok r) (c, results, errs) = (
    record c {
      world = w;
      current_owned_resources = (add c.current_owned_resources r.owned_resources).0;
    },
    results ++ r ∷ [],
    errs,
  )

  unfoldable pub run_adapters : List (Adapter W S P) → Ran W S → Ran W S
  unfolding add
  run_adapters [] ran = ran
  run_adapters (adapter ∷ rest) ran =
      run_adapters rest (with_result (adapter ran.0.world ran.0.pkg pi patches) ran)

-- firstFailed and firstWaiting, after the results that are left.
unfoldable pub first_bad :
    List ReconcileResult
    → Option ReconcileResult
    → Option ReconcileResult
    → Option ReconcileResult × Option ReconcileResult
first_bad [] first_failed first_waiting = (first_failed, first_waiting)
first_bad (r ∷ rs) first_failed first_waiting =
    let is_first_failed = is_failed r && not (is_some first_failed) in
    first_bad rs (if is_first_failed then some r else first_failed) (
      if not is_first_failed && (is_waiting r && not (is_some first_waiting))
      then some r
      else first_waiting)

module _ {W S : Type 0} (env : Env W S) where
  abbrev pub report :
      Option ReconcileResult × Option ReconcileResult → Context W S → Context W S × Bool
  report (some r, first_waiting) c = (fail env "InstallationFailed" r.message c, false)
  report (none, some r) c = (
    with_conditions env (set_unknown env.condition_api c.pkg.conditions "Pending" r.message) c,
    false,
  )
  report (none, none) c = (c, true)

  unfoldable pub handle_adapter_results : List ReconcileResult → Context W S → Context W S × Bool
  unfolding first_bad fail
  handle_adapter_results results c = report (first_bad results none none) c

  abbrev pub success_reason : List ReconcileResult → String
  success_reason results = if is_empty results then "UpToDate" else "InstallationSucceeded"

  abbrev pub success_message : List ReconcileResult → String
  success_message results =
      if is_empty results
      then "PackageInfo has nothing to apply (no helm or kustomize manifest present)"
      else env.lines (map (λ (r : ReconcileResult). r.message) results)

  unfoldable pub after_success : PackageInfo S → List ReconcileResult → Context W S → Context W S
  after_success pi results c =
      let c' =
        with_conditions env
          (set_ready env.condition_api c.pkg.conditions (success_reason results)
            (success_message results))
          c in
      record (set_should_update env (not (str_eq c'.pkg.version pi.version)) c') {
        pkg = record (c'.pkg) { version = pi.version };
        is_success = true;
      }
