-- ===== src/Controller/Deletion.antt =====
-- When a package is let go, and what is suspended: reconcileAfterDeletion and reconcileSuspended of
-- internal/controller/common.go.
use glasskube.Base.{String, ◌≡◌, refl, Bool, true, false, some, List, [], ok}
use glasskube.Assoc.{contains, string_key}
use glasskube.Owners.OwnedResources.{add}
use glasskube.Controller.Conditions.{set_unknown}
use glasskube.Controller.Types.{ReconciledPackage, Context}
use glasskube.Controller.Finalize.{Env, actual_finalize, finalize_no_requeue, add_owned, write_back}
use glasskube.Controller.Required.{DependencyEnv}
use glasskube.Controller.Reconcile.{ValueEnv}
use glasskube.Controller.Loop.{
  package_deletion_finalizer, delete_all, new_context, deleting, set_finalizers,
  reconcile_suspended, reconcile,
}
use glasskube.Controller.Kept.{KeepsFinalizers}

module _ {W S : Type 0} (env : Env W S) where
  -- What is to be written of a package that waits for nothing.
  abbrev pub released : ReconciledPackage S → ReconciledPackage S
  released pkg = record pkg {
    conditions =
        (set_unknown env.condition_api pkg.conditions "Pending" "Package is being deleted").0;
    finalizers = delete_all pkg.finalizers package_deletion_finalizer;
  }

  -- The package waits for nothing, its conditions tell already that it is being deleted, and the
  -- server takes the update.
  abbrev pub IsLetGo : W → ReconciledPackage S → Type 0
  IsLetGo w pkg =
      (pkg.owned_packages ≡ [])
      × (pkg.owned_package_infos ≡ [])
      × ((set_unknown env.condition_api pkg.conditions "Pending" "Package is being deleted").1
          ≡ false)
      × ((w' : W) × (p : ReconciledPackage S) × (env.api.update w (released pkg) ≡ (w', ok p)))

  module _ (stored : W → List String) (keeps : KeepsFinalizers env.api stored) where
    abbrev holds : W → Bool
    holds w = contains (stored w) package_deletion_finalizer

    abbrev letting_go : W → ReconciledPackage S → Context W S
    letting_go w pkg = deleting env (new_context w pkg)

    abbrev changes : ReconciledPackage S → Bool
    changes pkg =
        (set_unknown env.condition_api pkg.conditions "Pending" "Package is being deleted").1

    abbrev letting : W → ReconciledPackage S → Context W S
    letting w pkg =
        set_finalizers env (delete_all pkg.finalizers package_deletion_finalizer) (letting_go w pkg)

    abbrev IsReleased : W → Type 0
    IsReleased w = contains (stored w) package_deletion_finalizer ≡ false

  -- A package that is suspended stays as it is, and so does the server.
  module _ {R J T P V C : Type 0} (vals : ValueEnv W S R J T P) (deps : DependencyEnv W S V C) where
    reconcile-suspended :
        (w : W) (pkg : ReconciledPackage S)
        → pkg.suspend ≡ true
        → reconcile env vals deps w pkg
          ≡ some (new_context w pkg, record { requeues = false; errs = [] })
    unfolding reconcile reconcile_suspended actual_finalize add_owned write_back add
        finalize_no_requeue
    reconcile-suspended w pkg suspended = rw suspended refl
