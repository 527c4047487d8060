-- ===== src/Controller/Frame.antt =====
-- Which methods leave `isSuccess` and the finalizers of a context alone.
pub mod Steps
use glasskube.Base.{
  String, ◌≡◌, refl, ◌∙◌, ap, Bool, true, false, not, ◌&&◌, ◌||◌, Option, none, some, Option-cases,
  Bool-cases, Result-cases, inl, inr, List, [], ◌∷◌, ◌++◌, Result, ok, err, if◌then◌else◌, if_both,
  is_empty, arith,
}
use glasskube.Manifest.{PackageManifest}
use glasskube.Owners.OwnedResources.{OwnedResourceRef}
use glasskube.Patch.Target.{TargetPatch}
use glasskube.Manager.Types.{
  Stop, failed as stop_failed, unmet, panic, out_of_fuel, Run, ValidationResult,
  ValidationResultStatus, status_ok, status_resolvable, status_conflict,
}
use glasskube.Controller.Types.{ReconciledPackage, PackageInfo, Context}
use glasskube.Controller.Prune.{
  PruneState, leave_packages, prune_owned_resources, prune_owned_packages,
  prune_owned_package_infos, get_all_packages,
}
use glasskube.Controller.Finalize.{
  Env, fail, after_cleanup, cleanup, write_back, after_write, actual_finalize, add_owned, own_info,
}
use glasskube.Controller.Adapters.{
  Adapter, ReconcileResult, Ran, with_result, run_adapters, first_bad, handle_adapter_results,
}
use glasskube.Controller.Required.{DependencyEnv, Required, create_required}
use glasskube.Controller.Dependencies.{
  with_namespace, ensure_namespace_for_components, settle, handle_required, by_status,
  ensure_dependencies,
}

-- The context has the same outcome so far, and the package the same finalizers.
abbrev pub Same : {W S : Type 0} → Context W S → Context W S → Type 0
Same c c' = (c'.is_success ≡ c.is_success) × (c'.pkg.finalizers ≡ c.pkg.finalizers)

module _ {W S : Type 0} (env : Env W S) where
  pub Same-trans : (a b c : Context W S) → Same a b → Same b c → Same a c
  Same-trans a b c (p, q) (p', q') = (p' ∙ p, q' ∙ q)

  pub fail-Same : (reason message : String) (c : Context W S) → Same c (fail env reason message c)
  unfolding fail
  fail-Same reason message c = (refl, refl)

  prune_owned_resources-Same : (c : Context W S) → Same c (prune_owned_resources env.api c).0
  unfolding prune_owned_resources
  prune_owned_resources-Same c = (refl, refl)

  pub prune_owned_package_infos-Same :
      (own : String) (all : Bool) (c : Context W S)
      → Same c (prune_owned_package_infos env.api own all c).0
  unfolding prune_owned_package_infos
  prune_owned_package_infos-Same own all c =
      elim (Result-cases (get_all_packages env.api c.world)) [
        | inl (packages, e) ↦ rw (e, prune_owned_package_infos) (refl, refl)
        | inr (m, e) ↦ rw (e, prune_owned_package_infos) (refl, refl)
      ]

  leave_packages-Same :
      (c : Context W S) (s : PruneState W) (halted : Option String)
      → s.halted ≡ halted
      → Same c (leave_packages env.api c s).0
  leave_packages-Same c s none e = rw e (refl, refl)
  leave_packages-Same c s (some m) e = rw e (refl, refl)

  pub prune_owned_packages-Same :
      (all : Bool) (c : Context W S) → Same c (prune_owned_packages env.api all c).0
  unfolding prune_owned_packages
  prune_owned_packages-Same all c = elim (Result-cases (get_all_packages env.api c.world)) [
    | inl (packages, e) ↦ rw (e, prune_owned_packages) (leave_packages-Same c _ _ refl)
    | inr (m, e) ↦ rw (e, prune_owned_packages) (refl, refl)
  ]

  cleanup-Same : (c : Context W S) → Same c (cleanup env c).0
  unfolding cleanup
  cleanup-Same c =
      let a = (prune_owned_resources env.api c).0 in
      let b = (prune_owned_package_infos env.api (own_info env a) false a).0 in
      let d = (prune_owned_packages env.api false b).0 in
      Same-trans c a d (prune_owned_resources-Same c) (
        Same-trans a b d (prune_owned_package_infos-Same _ false a)
          (prune_owned_packages-Same false b))

  after_cleanup-Same :
      (c : Context W S) (p : Context W S × List String)
      → Same c p.0
      → Same c (after_cleanup env p).0
  unfolding fail
  after_cleanup-Same c (d, []) h = h
  after_cleanup-Same c (d, e ∷ es) h = h

  after_write-success :
      (c d : Context W S) (errs : List String) (reply : W × Result String (ReconciledPackage S))
      → d.is_success ≡ c.is_success
      → (after_write env d errs reply).0.is_success ≡ c.is_success
  after_write-success c d errs (w, ok pkg) h = h
  after_write-success c d errs (w, err e) h = h

  write_back-success :
      (c : Context W S) (p : Context W S × List String)
      → p.0.is_success ≡ c.is_success
      → (write_back env p).0.is_success ≡ c.is_success
  unfolding write_back
  write_back-success c (d, errs) h =
      let P = λ (p : Context W S × List String). p.0.is_success ≡ c.is_success in
      if_both P d.should_update_status
        (after_write-success c d errs (env.api.update_status d.world d.pkg) h)
        (if_both P d.should_update_resource
          (after_write-success c d errs (env.api.update d.world d.pkg) h) h)

  pub actual_finalize-success :
      (c : Context W S) → (actual_finalize env c).0.is_success ≡ c.is_success
  unfolding actual_finalize add_owned
  actual_finalize-success c =
      let d = add_owned env c in
      write_back-success c (if d.is_success then after_cleanup env (cleanup env d) else (d, [])) (
        if_both (λ (p : Context W S × List String). p.0.is_success ≡ c.is_success) d.is_success
          (after_cleanup-Same c (cleanup env d) (cleanup-Same d)).0 refl)
