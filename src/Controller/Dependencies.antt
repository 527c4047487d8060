-- ===== src/Controller/Dependencies.antt =====
-- ensureDependencies and ensureNamespaceForComponents of internal/controller/common.go.
use glasskube.Base.{
  String, Bool, true, false, not, ◌&&◌, Option, none, some, List, [], ◌∷◌, ◌++◌, Result, ok, err,
  if◌then◌else◌, is_empty,
}
use glasskube.Manifest.{PackageManifest}
use glasskube.Manager.Types.{
  failed as stop_failed, unmet, panic, out_of_fuel, Run, ValidationResult, status_ok,
  status_resolvable, status_conflict,
}
use glasskube.Manager.Verdict.{validate_package}
use glasskube.Repo.Adapter.{default_repo_adapter}
use glasskube.Owners.OwnedResources.{OwnedResourceRef, add}
use glasskube.Controller.Conditions.{set_unknown}
use glasskube.Controller.Types.{Context}
use glasskube.Controller.Finalize.{Env, fail, with_conditions, set_should_update}
use glasskube.Controller.Required.{
  DependencyEnv, Required, create_required, handle_all, wanted_dependencies, wanted_components,
}

-- The context that the method leaves, and what it returns; `none` if it does not return, since the
-- dependency manager panics or has no fuel left.
abbrev pub Checked : Type 0 → Type 0 → Type 0
Checked W S = Option (Context W S × Bool)

module _ {W S V C : Type 0} (env : Env W S) (deps : DependencyEnv W S V C) where
  abbrev pub with_namespace :
      Context W S → W × Result String OwnedResourceRef → Context W S × Option String
  with_namespace c (w, err e) = (record c { world = w }, some e)
  with_namespace c (w, ok ref) =
      let (refs, changed) = add c.current_owned_resources (ref ∷ []) in
      (set_should_update env changed (record c { world = w; current_owned_resources = refs }), none)

  -- ensureNamespaceForComponents
  unfoldable pub ensure_namespace_for_components :
      PackageManifest → Context W S → Context W S × Option String
  unfolding add
  ensure_namespace_for_components m c =
      if not c.pkg.is_namespace_scoped && not (is_empty m.components)
      then with_namespace c (env.api.ensure_namespace c.world c.pkg m.default_namespace)
      else (c, none)

  abbrev pub refuse : String → Context W S → Context W S × Bool
  refuse message c = (fail env "InstallationFailed" message c, false)

  -- What is left to do once all required packages have been handled.
  unfoldable pub settle : Context W S → Required W × Option String → Context W S × Bool
  unfolding fail add
  settle c (s, some e) = refuse e (record c { world = s.world })
  settle c (s, none) =
      let c' = record c { world = s.world } in
      if not (is_empty s.failed_names)
      then refuse (env.joined "required package(s) not installed: " s.failed_names) c'
      else if not (is_empty s.waiting_for)
      then (
        with_conditions env
            (set_unknown env.condition_api c'.pkg.conditions "Pending"
              (env.joined "waiting for required package(s) " s.waiting_for))
            c',
        false,
      )
      else (
        record c' { current_owned_packages = (add c'.current_owned_packages s.owned_packages).0 },
        true,
      )

  unfoldable pub handle_required : PackageManifest → Context W S → Context W S × Bool
  unfolding handle_all settle wanted_dependencies wanted_components
  handle_required m c = settle c (
      handle_all env.api env.condition_api deps
        (wanted_dependencies env.api env.condition_api deps m.dependencies
          ++ wanted_components env.api env.condition_api deps c.pkg m m.components)
        (record { world = c.world; owned_packages = []; waiting_for = []; failed_names = [] }))

  abbrev pub created : PackageManifest → Context W S → W × List String → Context W S × Bool
  created m c (w, []) = handle_required m (record c { world = w })
  created m c (w, f ∷ fs) =
      refuse (env.joined "required package(s) not installed: " (f ∷ fs)) (record c { world = w })

  -- The rest of the method, after the dependency manager has returned.
  unfoldable pub by_status :
      PackageManifest → Context W S → ValidationResult V C → Context W S × Bool
  unfolding create_required handle_required fail
  by_status m c result = elim result.status [
    | status_ok ↦ handle_required m c
    | status_resolvable ↦
        created m c (create_required env.api deps m result.requirements c.world [])
    | status_conflict ↦ refuse (deps.conflicting result.conflicts) c
  ]

  unfoldable pub after_validate :
      PackageManifest → Context W S → Run V C (ValidationResult V C) → Checked W S
  unfolding by_status fail
  after_validate m c (ok result) = some (by_status m c result)
  after_validate m c (err (stop_failed errs)) =
      some (refuse (deps.not_validated (stop_failed errs)) c)
  after_validate m c (err (unmet e)) = some (refuse (deps.not_validated (unmet e)) c)
  after_validate m c (err panic) = none
  after_validate m c (err out_of_fuel) = none

  abbrev pub after_namespace : PackageManifest → Context W S × Option String → Checked W S
  after_namespace m (c, some e) =
      some
        (refuse (env.joined "error creating namespace for ClusterPackage components: " (e ∷ [])) c)
  after_namespace m (c, none) = after_validate m c (
      validate_package deps.lib (deps.package_client c.world) (default_repo_adapter deps.clients)
        deps.sort deps.fuel c.pkg.name c.pkg.namespace (some m) c.pkg.package_info.version)

  -- ensureDependencies
  unfoldable pub ensure_dependencies : PackageManifest → Context W S → Checked W S
  unfolding ensure_namespace_for_components validate_package after_validate
  ensure_dependencies m c = after_namespace m (ensure_namespace_for_components m c)
