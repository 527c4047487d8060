-- ===== src/Controller/Frame/Steps.antt =====
-- The steps of reconcilePackageInfoReady leave `isSuccess` and the finalizers alone, but afterSuccess.
use mathlib.Core.Path.{subst}
use mathlib.Core.Option.{some-injective}
use glasskube.Base.{
  String, ◌≡◌, refl, Bool, not, ◌&&◌, Option, none, some, List, [], ◌∷◌, ◌++◌, Result, ok, err,
  if_both, is_empty,
}
use glasskube.Manifest.{PackageManifest}
use glasskube.Owners.OwnedResources.{OwnedResourceRef}
use glasskube.Patch.Target.{TargetPatch}
use glasskube.Manager.Types.{
  failed as stop_failed, unmet, panic, out_of_fuel, Run, ValidationResult, ValidationResultStatus,
  status_ok, status_resolvable, status_conflict,
}
use glasskube.Manager.Verdict.{validate_package}
use glasskube.Repo.Adapter.{default_repo_adapter}
use glasskube.Controller.Types.{PackageInfo, Context}
use glasskube.Controller.Finalize.{Env, fail}
use glasskube.Controller.Adapters.{
  Adapter, ReconcileResult, Ran, with_result, run_adapters, report, first_bad,
  handle_adapter_results,
}
use glasskube.Controller.Required.{
  DependencyEnv, Required, create_required, handle_all, wanted_dependencies, wanted_components,
}
use glasskube.Controller.Dependencies.{
  with_namespace, created, ensure_namespace_for_components, settle, handle_required, by_status,
  after_validate, after_namespace, ensure_dependencies,
}
use glasskube.Controller.Frame.{Same, Same-trans}

module _ {W S V C : Type 0} (env : Env W S) (deps : DependencyEnv W S V C) where
  abbrev Kept : Context W S → Context W S × Bool → Type 0
  Kept c p = Same c p.0

  settle-Same : (c : Context W S) (p : Required W × Option String) → Same c (settle env deps c p).0
  unfolding settle fail
  settle-Same c (s, some e) = (refl, refl)
  settle-Same c (s, none) =
      if_both (Kept c) (not (is_empty s.failed_names)) (refl, refl)
        (if_both (Kept c) (not (is_empty s.waiting_for)) (refl, refl) (refl, refl))

  handle_required-Same :
      (m : PackageManifest) (c : Context W S) → Same c (handle_required env deps m c).0
  unfolding handle_required
  handle_required-Same m c = settle-Same c (
      handle_all env.api env.condition_api deps
        (wanted_dependencies env.api env.condition_api deps m.dependencies
          ++ wanted_components env.api env.condition_api deps c.pkg m m.components)
        (record { world = c.world; owned_packages = []; waiting_for = []; failed_names = [] }))

  created-Same :
      (m : PackageManifest) (c : Context W S) (p : W × List String)
      → Same c (created env deps m c p).0
  unfolding fail
  created-Same m c (w, []) = handle_required-Same m (record c { world = w })
  created-Same m c (w, f ∷ fs) = (refl, refl)

  by_status-Same :
      (m : PackageManifest) (c : Context W S) (result : ValidationResult V C)
      (status : ValidationResultStatus)
      → result.status ≡ status
      → Same c (by_status env deps m c result).0
  unfolding by_status fail
  by_status-Same m c result status_ok e = rw (e, by_status) (handle_required-Same m c)
  by_status-Same m c result status_resolvable e =
      rw (e, by_status)
        (created-Same m c (create_required env.api deps m result.requirements c.world []))
  by_status-Same m c result status_conflict e = rw (e, by_status) (refl, refl)

  after_validate-Same :
      (m : PackageManifest) (c : Context W S) (r : Run V C (ValidationResult V C))
      (p : Context W S × Bool)
      → after_validate env deps m c r ≡ some p
      → Same c p.0
  unfolding after_validate fail
  after_validate-Same m c (ok result) p e =
      subst (Kept c) (some-injective _ _ e) (by_status-Same m c result result.status refl)
  after_validate-Same m c (err (stop_failed errs)) p e =
      subst (Kept c) (some-injective _ _ e) (refl, refl)
  after_validate-Same m c (err (unmet x)) p e = subst (Kept c) (some-injective _ _ e) (refl, refl)
  after_validate-Same m c (err panic) p e = cc
  after_validate-Same m c (err out_of_fuel) p e = cc

  after_namespace-Same :
      (m : PackageManifest) (c : Context W S) (q : Context W S × Option String)
      (p : Context W S × Bool)
      → Same c q.0
      → after_namespace env deps m q ≡ some p
      → Same c p.0
  unfolding fail
  after_namespace-Same m c (d, some x) p h e = subst (Kept c) (some-injective _ _ e) h
  after_namespace-Same m c (d, none) p h e = Same-trans env c d p.0 h (
      after_validate-Same m d
        (validate_package deps.lib (deps.package_client d.world) (default_repo_adapter deps.clients)
          deps.sort deps.fuel d.pkg.name d.pkg.namespace (some m) d.pkg.package_info.version)
        p e)

  with_namespace-Same :
      (c : Context W S) (reply : W × Result String OwnedResourceRef)
      → Same c (with_namespace env deps c reply).0
  with_namespace-Same c (w, ok ref) = (refl, refl)
  with_namespace-Same c (w, err e) = (refl, refl)

  pub ensure_dependencies-Same :
      (m : PackageManifest) (c : Context W S) (p : Context W S × Bool)
      → ensure_dependencies env deps m c ≡ some p
      → Same c p.0
  unfolding ensure_dependencies ensure_namespace_for_components
  ensure_dependencies-Same m c p e =
      after_namespace-Same m c (ensure_namespace_for_components env deps m c) p
        (if_both (λ (q : Context W S × Option String). Same c q.0)
          (not c.pkg.is_namespace_scoped && not (is_empty m.components))
          (with_namespace-Same c (env.api.ensure_namespace c.world c.pkg m.default_namespace))
          (refl, refl))
        e

module _ {W S P : Type 0} (env : Env W S) (pi : PackageInfo S)
    (patches : List (TargetPatch P)) where
  with_result-Same :
      (reply : W × Result String ReconcileResult) (ran : Ran W S)
      → Same ran.0 (with_result pi patches reply ran).0
  with_result-Same (w, ok r) (c, results, errs) = (refl, refl)
  with_result-Same (w, err e) (c, results, errs) = (refl, refl)

  pub run_adapters-Same :
      (adapters : List (Adapter W S P)) (ran : Ran W S)
      → Same ran.0 (run_adapters pi patches adapters ran).0
  unfolding run_adapters
  run_adapters-Same [] ran = (refl, refl)
  run_adapters-Same (adapter ∷ rest) ran =
      let reply = adapter ran.0.world ran.0.pkg pi patches in
      let next = with_result pi patches reply ran in
      Same-trans env ran.0 next.0 (run_adapters pi patches rest next).0 (with_result-Same reply ran)
        (run_adapters-Same rest next)

module _ {W S : Type 0} (env : Env W S) where
  report-Same :
      (bad : Option ReconcileResult × Option ReconcileResult) (c : Context W S)
      → Same c (report env bad c).0
  unfolding fail
  report-Same (some r, w) c = (refl, refl)
  report-Same (none, some r) c = (refl, refl)
  report-Same (none, none) c = (refl, refl)

  pub handle_adapter_results-Same :
      (results : List ReconcileResult) (c : Context W S)
      → Same c (handle_adapter_results env results c).0
  unfolding handle_adapter_results
  handle_adapter_results-Same results c = report-Same (first_bad results none none) c
