-- ===== src/Controller/Loop.antt =====
-- reconcile of internal/controller/common.go, with reconcileSuspended, reconcileAfterDeletion,
-- ensureFinalizer and ensurePackageInfo.
use glasskube.Base.{
  String, true, false, not, Option, none, some, List, [], ◌∷◌, ◌++◌, str_eq, Result, ok, err,
  if◌then◌else◌, is_empty,
}
use glasskube.Assoc.{contains, string_key}
use glasskube.Owners.OwnedResources.{OwnedResourceRef, add}
use glasskube.Controller.Conditions.{Condition, ready, set_unknown}
use glasskube.Controller.Types.{ReconciledPackage, PackageInfo, Context}
use glasskube.Controller.Prune.{prune_owned_packages, prune_owned_package_infos}
use glasskube.Controller.Finalize.{
  Env, Outcome, fail, with_conditions, set_should_update, finalize, finalize_no_requeue,
  finalize_with_error, always, package_info_name,
}
use glasskube.Controller.Required.{DependencyEnv}
use glasskube.Controller.Reconcile.{ValueEnv, Reconciled, reconcile_package_info_ready}

abbrev pub package_deletion_finalizer : String
package_deletion_finalizer = "packages.glasskube.dev/packageDeletion"

-- util.DeleteAll
unfoldable pub delete_all : List String → String → List String
delete_all [] e = []
delete_all (x ∷ xs) e = if str_eq x e then delete_all xs e else x ∷ delete_all xs e

-- `&PackageReconcilationContext{...}`
abbrev pub new_context : {W S : Type 0} → W → ReconciledPackage S → Context W S
new_context w pkg = record {
  pkg = pkg;
  is_success = false;
  should_update_status = false;
  should_update_resource = false;
  current_owned_resources = [];
  current_owned_packages = [];
  world = w;
}

module _ {W S : Type 0} (env : Env W S) where
  -- reconcileSuspended
  unfoldable pub reconcile_suspended : Context W S → Context W S × Outcome
  unfolding finalize_no_requeue
  reconcile_suspended c = finalize_no_requeue env c

  abbrev pub set_finalizers : List String → Context W S → Context W S
  set_finalizers finalizers c = record c {
    pkg = record (c.pkg) { finalizers = finalizers };
    should_update_resource = true;
  }

  -- What a package that is being deleted waits for: its required packages, then its PackageInfos.
  unfoldable pub let_go : Context W S → Context W S × List String
  unfolding prune_owned_packages prune_owned_package_infos delete_all package_info_name
  let_go c =
      if not (is_empty c.pkg.owned_packages)
      then prune_owned_packages env.api true c
      else if not (is_empty c.pkg.owned_package_infos)
      then prune_owned_package_infos env.api (package_info_name env.escape c.pkg.package_info) true
          c
      else (set_finalizers (delete_all c.pkg.finalizers package_deletion_finalizer) c, [])

  abbrev pub after_release : Context W S × List String → Context W S × Outcome
  after_release (c, []) = finalize_no_requeue env c
  after_release (c, e ∷ es) = finalize_with_error env (e ∷ es) c

  abbrev pub deleting : Context W S → Context W S
  deleting c =
      with_conditions env
        (set_unknown env.condition_api c.pkg.conditions "Pending" "Package is being deleted") c

  -- reconcileAfterDeletion
  unfoldable pub reconcile_after_deletion : Context W S → Context W S × Outcome
  unfolding let_go finalize_no_requeue finalize_with_error
  reconcile_after_deletion c =
      let c' = deleting c in
      if contains c'.pkg.finalizers package_deletion_finalizer
      then after_release (let_go c')
      else finalize_no_requeue env c'

  unfoldable pub ensure_finalizer : Context W S → Context W S
  ensure_finalizer c =
      if not (contains c.pkg.finalizers package_deletion_finalizer)
      then set_finalizers (c.pkg.finalizers ++ package_deletion_finalizer ∷ []) c
      else c

  abbrev pub own : Option OwnedResourceRef → Context W S → Context W S
  own none c = c
  own (some ref) c =
      let (refs, changed) = add c.pkg.owned_package_infos (ref ∷ []) in
      set_should_update env changed
        (record c { pkg = record (c.pkg) { owned_package_infos = refs } })

  abbrev pub ensured :
      Context W S → W × Result String (PackageInfo S) → Context W S × Result String (PackageInfo S)
  ensured c (w, err e) = (record c { world = w }, err e)
  ensured c (w, ok pi) = (own pi.ref (record c { world = w }), ok pi)

  -- ensurePackageInfo
  unfoldable pub ensure_package_info : Context W S → Context W S × Result String (PackageInfo S)
  unfolding add package_info_name
  ensure_package_info c = ensured c (
      env.api.create_or_update_package_info c.world
        (package_info_name env.escape c.pkg.package_info) c.pkg.package_info)

  -- The failure of the PackageInfo, passed on to the package.
  abbrev pub failing_info : Option Condition → Context W S → Reconciled W S
  failing_info none c = none
  failing_info (some condition) c =
      some (finalize env (fail env condition.reason condition.message c))

  module _ {R J T P V C : Type 0} (vals : ValueEnv W S R J T P) (deps : DependencyEnv W S V C) where
    unfoldable pub by_info : PackageInfo S → Context W S → Reconciled W S
    unfolding reconcile_package_info_ready finalize fail
    by_info pi c =
        if env.condition_api.is_status_condition_true pi.conditions ready
        then reconcile_package_info_ready env vals deps pi c
        else if env.condition_api.is_status_condition_false pi.conditions ready
        then failing_info (env.condition_api.find_status_condition pi.conditions ready) c
        else some (
            finalize env (
              with_conditions env
                (set_unknown env.condition_api c.pkg.conditions "Pending"
                  "PackageInfo status is unknown")
                c))

    abbrev with_info : Context W S × Result String (PackageInfo S) → Reconciled W S
    with_info (c, err e) = some (always env (c, e ∷ []))
    with_info (c, ok pi) = by_info pi c

    -- reconcile; `none` also for the nil dereference of a condition that is false and not there.
    unfoldable pub reconcile : W → ReconciledPackage S → Reconciled W S
    unfolding reconcile_suspended reconcile_after_deletion ensure_finalizer ensure_package_info
        by_info
    reconcile w pkg =
        let c = new_context w pkg in
        if pkg.suspend
        then some (reconcile_suspended c)
        else if pkg.is_deleting
        then some (reconcile_after_deletion c)
        else with_info (ensure_package_info (ensure_finalizer c))
