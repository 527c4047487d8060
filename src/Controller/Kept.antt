-- ===== src/Controller/Kept.antt =====
-- The finalizers that the API server holds of a package, which only an Update of it changes.
use glasskube.Base.{
  ℕ, String, arith, ◌≡◌, refl, ◌∙◌, Bool, false, not, ◌&&◌, ◌||◌, Option, none, some, List, [],
  Result-cases, inl, inr, ok, err, Result, str_eq, length, if_both, if_else, if◌then◌else◌,
}
use glasskube.Owners.OwnedResources.{OwnedResourceRef}
use glasskube.Controller.Slices.{range_from, range_from_inv}
use glasskube.Controller.Types.{
  ReconciledPackage, Api, Context, Reply, found, not_found, get_failed, DeleteReply, deleted,
  nothing_to_delete, delete_failed,
}
use glasskube.Controller.Finalize.{
  Env, actual_finalize, add_owned, cleanup, after_cleanup, write_back, after_write,
}
use glasskube.Controller.Prune.{
  PruneState, array_of, start_of, forget, forget_info, after_delete, prune_info, prune_unused,
  prune_package, info_still_used, package_still_used, is_current, get_all_packages, leave_packages,
  prune_owned_packages, prune_owned_package_infos,
}

-- `stored` are the finalizers of the package on the server. Only a successful Update writes them:
-- Status().Update does not, and neither does the deletion of another resource.
pub record KeepsFinalizers {W S : Type 0} (api : Api W S) (stored : W → List String) : Type 0 where
  pub by_status :
      (w : W) (pkg : ReconciledPackage S) → stored (api.update_status w pkg).0 ≡ stored w
  pub by_update :
      (w w' : W) (pkg p : ReconciledPackage S)
      → api.update w pkg ≡ (w', ok p)
      → stored w' ≡ pkg.finalizers
  pub by_failure :
      (w w' : W) (pkg : ReconciledPackage S) (e : String)
      → api.update w pkg ≡ (w', err e)
      → stored w' ≡ stored w
  pub by_delete : (w : W) (ref : OwnedResourceRef) → stored (api.delete w ref).0 ≡ stored w
  pub in_foreground :
      (w : W) (ref : OwnedResourceRef) → stored (api.delete_in_foreground w ref).0 ≡ stored w

module _ {W S : Type 0} (env : Env W S) (stored : W → List String)
    (keeps : KeepsFinalizers env.api stored) (held : List String) where
  -- A context whose package is not to be updated, while the server holds the finalizers.
  abbrev pub IsQuiet : Context W S → Type 0
  IsQuiet c = (c.is_success ≡ false) × (c.should_update_resource ≡ false) × (stored c.world ≡ held)

  status_reply :
      (c : Context W S) (errs : List String) (reply : W × Result String (ReconciledPackage S))
      → stored reply.0 ≡ held
      → stored (after_write env c errs reply).0.world ≡ held
  status_reply c errs (w, ok pkg) h = h
  status_reply c errs (w, err e) h = h

  write_back-stored :
      (c : Context W S) (errs : List String)
      → IsQuiet c
      → stored (write_back env (c, errs)).0.world ≡ held
  unfolding write_back
  write_back-stored c errs (_, no_update, h) =
      let P = λ (p : Context W S × List String). stored p.0.world ≡ held in
      if_both P c.should_update_status
        (status_reply c errs (env.api.update_status c.world c.pkg)
          (keeps.by_status c.world c.pkg ∙ h))
        (if_else P c.should_update_resource (after_write env c errs (env.api.update c.world c.pkg))
          no_update h)

  -- The end of a reconciliation leaves the finalizers where the package is not to be updated.
  pub actual_finalize-stored :
      (c : Context W S) → IsQuiet c → stored (actual_finalize env c).0.world ≡ held
  unfolding actual_finalize add_owned
  actual_finalize-stored c (no_success, no_update, h) =
      if_else (λ (p : Context W S × List String). stored (write_back env p).0.world ≡ held)
        c.is_success (after_cleanup env (cleanup env (add_owned env c))) no_success
        (write_back-stored (add_owned env c) [] (no_success, no_update, h))

  abbrev IsKept : PruneState W → Type 0
  IsKept s = stored s.world ≡ held

  after_delete-IsKept :
      (done : PruneState W → PruneState W) (reply : W × DeleteReply) (s : PruneState W)
      → ((t : PruneState W) → IsKept t → IsKept (done t))
      → stored reply.0 ≡ held
      → IsKept (after_delete env.api done reply s)
  after_delete-IsKept done (w, deleted) s keeps_done h = keeps_done _ h
  after_delete-IsKept done (w, nothing_to_delete) s keeps_done h = keeps_done _ h
  after_delete-IsKept done (w, delete_failed e) s keeps_done h = h

  forget-IsKept : (ref : OwnedResourceRef) (s : PruneState W) → IsKept s → IsKept (forget ref s)
  unfolding forget
  forget-IsKept ref s h = h

  prune_info-IsKept :
      (all : Bool) (own : String) (this : ReconciledPackage S)
      (packages : List (ReconciledPackage S)) (ref : OwnedResourceRef) (s : PruneState W)
      → IsKept s
      → IsKept (prune_info env.api all own this packages ref s).0
  unfolding prune_info
  prune_info-IsKept all own this packages ref s h =
      let forgotten : PruneState W = forget_info env.api ref s in
      let pruned : PruneState W =
        after_delete env.api (forget_info env.api ref) (env.api.delete s.world ref) s in
      let kept =
        after_delete-IsKept (forget_info env.api ref) (env.api.delete s.world ref) s
          (λ t k. forget-IsKept ref t k) (keeps.by_delete s.world ref ∙ h) in
      let used = info_still_used env.api this packages ref in
      if_both IsKept (not all && str_eq ref.name own) {x = s}
        {y = if used then forgotten else pruned} h
        (if_both IsKept used {x = forgotten} {y = pruned} (forget-IsKept ref s h) kept)

  prune_unused-IsKept :
      (ref : OwnedResourceRef) (s : PruneState W) (reply : Reply (ReconciledPackage S))
      → env.api.get_package s.world (str_eq ref.kind "Package") ref.name ref.namespace ≡ reply
      → IsKept s
      → IsKept (prune_unused env.api ref s)
  unfolding prune_unused
  prune_unused-IsKept ref s not_found e h =
      rw (e, prune_unused) (forget-IsKept ref (forget ref s) (forget-IsKept ref s h))
  prune_unused-IsKept ref s (get_failed m) e h = rw (e, prune_unused) h
  prune_unused-IsKept ref s (found old) e h =
      let pruned : PruneState W =
        after_delete env.api (forget ref) (env.api.delete_in_foreground s.world ref) s in
      rw (e, prune_unused)
        (if_both IsKept old.installed_as_dependency {x = pruned} {y = forget ref s}
          (after_delete-IsKept (forget ref) (env.api.delete_in_foreground s.world ref) s
            (λ t k. forget-IsKept ref t k) (keeps.in_foreground s.world ref ∙ h))
          (forget-IsKept ref s h))

  prune_package-IsKept :
      (all : Bool) (current : List OwnedResourceRef) (this : ReconciledPackage S)
      (packages : List (ReconciledPackage S)) (ref : OwnedResourceRef) (s : PruneState W)
      → IsKept s
      → IsKept (prune_package env.api all current this packages ref s).0
  unfolding prune_package
  prune_package-IsKept all current this packages ref s h =
      let P = λ (p : PruneState W × Bool). IsKept p.0 in
      if_both P (not all && is_current current ref) h (
        if_both P (package_still_used env.api this packages ref) (forget-IsKept ref s h) (
          if_both P (str_eq ref.kind "ClusterPackage" || str_eq ref.kind "Package")
            (prune_unused-IsKept ref s _ refl h) h))

  loop-IsKept :
      (body : OwnedResourceRef → PruneState W → PruneState W × Bool)
      → ((ref : OwnedResourceRef) (s : PruneState W) → IsKept s → IsKept (body ref s).0)
      → (n : ℕ) (s : PruneState W) → IsKept s
      → IsKept (range_from array_of body n 0 s)
  loop-IsKept body each n s h =
      range_from_inv array_of 0 IsKept body (λ ref j t at_least there_is k. each ref t k) n 0 s
        (omega arith) h

  pub prune_owned_package_infos-IsQuiet :
      (own : String) (all : Bool) (c : Context W S)
      → IsQuiet c
      → IsQuiet (prune_owned_package_infos env.api own all c).0
  unfolding prune_owned_package_infos
  prune_owned_package_infos-IsQuiet own all c (no_success, no_update, h) =
      elim (Result-cases (get_all_packages env.api c.world)) [
        | inl (packages, e) ↦
            rw (e, prune_owned_package_infos)
              (
                no_success,
                no_update,
                loop-IsKept (prune_info env.api all own c.pkg packages)
                    (λ ref s k. prune_info-IsKept all own c.pkg packages ref s k)
                    (length c.pkg.owned_package_infos) (start_of c.world c.pkg.owned_package_infos)
                    h,
              )
        | inr (m, e) ↦ rw (e, prune_owned_package_infos) (no_success, no_update, h)
      ]

  leave_packages-IsQuiet :
      (c : Context W S) (s : PruneState W) (halted : Option String)
      → s.halted ≡ halted
      → IsQuiet c
      → IsKept s
      → IsQuiet (leave_packages env.api c s).0
  leave_packages-IsQuiet c s none e (no_success, no_update, _) h = rw e (no_success, no_update, h)
  leave_packages-IsQuiet c s (some m) e (no_success, no_update, _) h =
      rw e (no_success, no_update, h)

  pub prune_owned_packages-IsQuiet :
      (all : Bool) (c : Context W S) → IsQuiet c → IsQuiet (prune_owned_packages env.api all c).0
  unfolding prune_owned_packages
  prune_owned_packages-IsQuiet all c (no_success, no_update, h) =
      elim (Result-cases (get_all_packages env.api c.world)) [
        | inl (packages, e) ↦
            rw (e, prune_owned_packages)
              (leave_packages-IsQuiet c
                (range_from array_of
                  (prune_package env.api all c.current_owned_packages c.pkg packages)
                  (length c.pkg.owned_packages) 0 (start_of c.world c.pkg.owned_packages))
                _ refl (no_success, no_update, h)
                (loop-IsKept (prune_package env.api all c.current_owned_packages c.pkg packages)
                  (λ ref s k.
                    prune_package-IsKept all c.current_owned_packages c.pkg packages ref s k)
                  (length c.pkg.owned_packages) (start_of c.world c.pkg.owned_packages) h))
        | inr (m, e) ↦ rw (e, prune_owned_packages) (no_success, no_update, h)
      ]
