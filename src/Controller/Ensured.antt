-- ===== src/Controller/Ensured.antt =====
-- Where ensureDependencies of internal/controller/common.go lets a reconciliation go on.
use mathlib.Core.Path.{subst}
use mathlib.Core.Option.{some-injective}
use glasskube.Base.{
  String, ◌≡◌, refl, ap, Bool, true, not, Option, none, some, List, [], ◌∷◌, ◌++◌, Result, ok, err,
  inl, inr, Bool-cases, if_both, ◌&&◌, is_empty, is_empty_iff,
}
use glasskube.Manifest.{PackageManifest}
use glasskube.Manager.Types.{
  failed as stop_failed, unmet, panic, out_of_fuel, Run, ValidationResult, ValidationResultStatus,
  status_ok, status_resolvable, status_conflict,
}
use glasskube.Owners.OwnedResources.{OwnedResourceRef}
use glasskube.Controller.Types.{Context}
use glasskube.Controller.Finalize.{Env, fail}
use glasskube.Controller.Required.{
  DependencyEnv, Required, handle_all, wanted_dependencies, wanted_components, create_required,
}
use glasskube.Controller.Dependencies.{
  with_namespace, created, ensure_namespace_for_components, settle, handle_required, by_status,
  after_validate, after_namespace, ensure_dependencies,
}
use glasskube.Controller.Installed.{
  RequiredAreInstalled, IsClean, dependencies-AreInstalled, components-AreInstalled,
  handle_all-AreInstalled, All-append,
}

module _ {W S V C : Type 0} (env : Env W S) (deps : DependencyEnv W S V C) where
  settle-IsClean :
      (c : Context W S) (s : Required W) (e : Option String)
      → (settle env deps c (s, e)).1 ≡ true
      → (e ≡ none) × IsClean env deps s
  unfolding settle
  settle-IsClean c s (some e) done = cc done
  settle-IsClean c s none done = elim (Bool-cases (is_empty s.failed_names)) [
    | inr some_failed ↦ cc (rw (some_failed, settle) at done)
    | inl none_failed ↦ elim (Bool-cases (is_empty s.waiting_for)) [
      | inr some_waiting ↦ cc (rw (none_failed, some_waiting, settle) at done)
      | inl none_waiting ↦ (refl, ((is_empty_iff _).0 none_failed, (is_empty_iff _).0 none_waiting))
    ]
  ]

  handle_required-AreInstalled :
      (m : PackageManifest) (c : Context W S)
      → (handle_required env deps m c).1 ≡ true
      → RequiredAreInstalled env deps m c.pkg
  unfolding handle_required
  handle_required-AreInstalled m c done =
      let ds = wanted_dependencies env.api env.condition_api deps m.dependencies in
      let cmps = wanted_components env.api env.condition_api deps c.pkg m m.components in
      let start : Required W = record {
        world = c.world;
        owned_packages = [];
        waiting_for = [];
        failed_names = [];
      } in
      let ended = handle_all env.api env.condition_api deps (ds ++ cmps) start in
      let (no_error, clean) = settle-IsClean c ended.0 ended.1 done in
      let (_, all_installed) =
        handle_all-AreInstalled env deps (ds ++ cmps) start ended.0
          (ap (λ (e : Option String). (ended.0, e)) no_error) clean in
      let (left, right) = All-append env deps ds cmps all_installed in
      (
        dependencies-AreInstalled env deps m.dependencies left,
        components-AreInstalled env deps c.pkg m m.components right,
      )

  created-AreInstalled :
      (m : PackageManifest) (c : Context W S) (p : W × List String)
      → (created env deps m c p).1 ≡ true
      → RequiredAreInstalled env deps m c.pkg
  unfolding fail
  created-AreInstalled m c (w, []) done =
      handle_required-AreInstalled m (record c { world = w }) done
  created-AreInstalled m c (w, f ∷ fs) done = cc done

  by_status-AreInstalled :
      (m : PackageManifest) (c : Context W S) (status : ValidationResultStatus)
      (result : ValidationResult V C)
      → result.status ≡ status
      → (by_status env deps m c result).1 ≡ true
      → RequiredAreInstalled env deps m c.pkg
  unfolding by_status
  by_status-AreInstalled m c status_ok result e done =
      handle_required-AreInstalled m c (rw (e, by_status) at done)
  by_status-AreInstalled m c status_resolvable result e done =
      created-AreInstalled m c (create_required env.api deps m result.requirements c.world [])
        (rw (e, by_status) at done)
  by_status-AreInstalled m c status_conflict result e done = cc (rw (e, by_status) at done)

  after_validate-AreInstalled :
      (m : PackageManifest) (c d : Context W S) (r : Run V C (ValidationResult V C))
      → after_validate env deps m c r ≡ some (d, true)
      → RequiredAreInstalled env deps m c.pkg
  unfolding after_validate
  after_validate-AreInstalled m c d (ok result) e =
      by_status-AreInstalled m c result.status result refl
        (ap (λ (p : Context W S × Bool). p.1) (some-injective _ _ e))
  after_validate-AreInstalled m c d (err (stop_failed errs)) e = cc e
  after_validate-AreInstalled m c d (err (unmet x)) e = cc e
  after_validate-AreInstalled m c d (err panic) e = cc e
  after_validate-AreInstalled m c d (err out_of_fuel) e = cc e

  with_namespace-pkg :
      (c : Context W S) (p : W × Result String OwnedResourceRef)
      → (with_namespace env deps c p).0.pkg ≡ c.pkg
  with_namespace-pkg c (w, ok ref) = refl
  with_namespace-pkg c (w, err e) = refl

  after_namespace-AreInstalled :
      (m : PackageManifest) (c d : Context W S) (p : Context W S × Option String)
      → p.0.pkg ≡ c.pkg
      → after_namespace env deps m p ≡ some (d, true)
      → RequiredAreInstalled env deps m c.pkg
  after_namespace-AreInstalled m c d (c', none) same e =
      subst (RequiredAreInstalled env deps m) same (after_validate-AreInstalled m c' d _ e)
  after_namespace-AreInstalled m c d (c', some x) same e = cc e

  -- Where the method lets the reconciliation go on, what the manifest requires is installed.
  pub ensure_dependencies-AreInstalled :
      (m : PackageManifest) (c d : Context W S)
      → ensure_dependencies env deps m c ≡ some (d, true)
      → RequiredAreInstalled env deps m c.pkg
  unfolding ensure_dependencies ensure_namespace_for_components
  ensure_dependencies-AreInstalled m c d e =
      after_namespace-AreInstalled m c d (ensure_namespace_for_components env deps m c)
        (if_both (λ (p : Context W S × Option String). p.0.pkg ≡ c.pkg)
          (not c.pkg.is_namespace_scoped && not (is_empty m.components))
          (with_namespace-pkg c (env.api.ensure_namespace c.world c.pkg m.default_namespace)) refl)
        e
