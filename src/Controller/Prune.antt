-- ===== src/Controller/Prune.antt =====
-- pruneOwnedResources, pruneOwnedPackageInfos and pruneOwnedPackages of internal/controller/common.go.
-- Their loops range over a list of the status while they remove from it in place.
pub mod Spec
pub mod Skipped
use glasskube.Base.{
  ℕ, String, Bool, true, false, not, ◌&&◌, ◌||◌, Option, none, some, List, [], ◌∷◌, ◌++◌, str_eq,
  Result, ok, err, if◌then◌else◌, length, is_empty,
}
use glasskube.Owners.OwnedResources.{OwnedResourceRef, refers_to_same_resource, refers}
use glasskube.Controller.Slices.{Slice, elements, remove_in_place, range_from}
use glasskube.Controller.Types.{
  ReconciledPackage, Reply, found, not_found, get_failed, DeleteReply, deleted, nothing_to_delete,
  delete_failed, Api, Context, is_managed,
}

-- The variables of a loop: the slice from which it removes, the API server, the errors, and whether
-- the status has to be updated.
pub record PruneState (W : Type 0) : Type 0 where
  pub slice : Slice
  pub world : W
  pub errs : List String
  pub should_update : Bool
  -- The error with which a method ends in the middle of its loop.
  pub halted : Option String

abbrev pub array_of : {W : Type 0} → PruneState W → List OwnedResourceRef
array_of s = s.slice.array

-- Whether the inner loop over the current references continues the outer one.
unfoldable pub is_current : List OwnedResourceRef → OwnedResourceRef → Bool
is_current [] ref = false
is_current (new_ref ∷ new_refs) ref = refers_to_same_resource ref new_ref || is_current new_refs ref

abbrev pub start_of : {W : Type 0} → W → List OwnedResourceRef → PruneState W
start_of w refs = record {
  slice = record { array = refs; len = length refs };
  world = w;
  errs = [];
  should_update = false;
  halted = none;
}

-- Remove of the reference, with setShouldUpdate of its answer.
unfoldable pub forget : {W : Type 0} → OwnedResourceRef → PruneState W → PruneState W
unfolding remove_in_place
forget ref s =
    let (slice, changed) = remove_in_place s.slice ref in
    record s { slice = slice; should_update = s.should_update || changed }

abbrev pub failing : {W : Type 0} → String → PruneState W → PruneState W
failing e s = record s { errs = s.errs ++ e ∷ [] }

module _ {W S : Type 0} (api : Api W S) where
  abbrev pub after_delete :
      (PruneState W → PruneState W) → W × DeleteReply → PruneState W → PruneState W
  after_delete done (w, delete_failed e) s = failing e (record s { world = w })
  after_delete done (w, deleted) s = done (record s { world = w })
  after_delete done (w, nothing_to_delete) s = done (record s { world = w })

  -- What pruneOwnedResources does with a reference that is not a current one.
  unfoldable pub prune_stale : OwnedResourceRef → PruneState W → PruneState W
  unfolding forget is_managed
  prune_stale ref s = elim (api.get_resource s.world ref) [
    | not_found ↦ s
    | get_failed e ↦ failing e s
    | found labels ↦
        if is_managed labels
        then after_delete (forget ref) (api.delete s.world ref) s
        else forget ref s
  ]

  unfoldable pub prune_resource :
      List OwnedResourceRef → OwnedResourceRef → PruneState W → PruneState W × Bool
  unfolding prune_stale is_current
  prune_resource current ref s = (if is_current current ref then s else prune_stale ref s, false)

  -- The loop of pruneOwnedResources.
  unfoldable pub pruned_resources : Context W S → PruneState W
  unfolding prune_resource range_from
  pruned_resources c =
      range_from array_of (prune_resource c.current_owned_resources) (length c.pkg.owned_resources)
        0 (start_of c.world c.pkg.owned_resources)

  abbrev pub append_lists :
      Result String (List (ReconciledPackage S))
      → Result String (List (ReconciledPackage S))
      → Result String (List (ReconciledPackage S))
  append_lists (err e) cluster_packages = err e
  append_lists (ok packages) (err e) = err e
  append_lists (ok packages) (ok cluster_packages) = ok (packages ++ cluster_packages)

  -- getAllPackagesAndClusterPackages
  unfoldable pub get_all_packages : W → Result String (List (ReconciledPackage S))
  get_all_packages w = append_lists (api.list_packages w) (api.list_cluster_packages w)

  abbrev pub is_same_package : ReconciledPackage S → ReconciledPackage S → Bool
  is_same_package a b = str_eq a.name b.name && str_eq a.namespace b.namespace

  unfoldable pub has_name : List OwnedResourceRef → String → Bool
  has_name [] name = false
  has_name (ref ∷ refs) name = str_eq ref.name name || has_name refs name

  -- `stillUsed` of pruneOwnedPackageInfos
  unfoldable pub info_still_used :
      ReconciledPackage S → List (ReconciledPackage S) → OwnedResourceRef → Bool
  unfolding has_name
  info_still_used this [] ref = false
  info_still_used this (p ∷ ps) ref =
      (not (is_same_package p this) && has_name p.owned_package_infos ref.name)
      || info_still_used this ps ref

  -- `stillUsed` of pruneOwnedPackages
  unfoldable pub package_still_used :
      ReconciledPackage S → List (ReconciledPackage S) → OwnedResourceRef → Bool
  unfolding refers
  package_still_used this [] ref = false
  package_still_used this (p ∷ ps) ref =
      (not (p.is_deleting || is_same_package p this) && refers p.owned_packages ref)
      || package_still_used this ps ref

  abbrev pub forget_info : OwnedResourceRef → PruneState W → PruneState W
  forget_info ref s = record (forget ref s) { should_update = true }

  -- A round of pruneOwnedPackageInfos; `own` is the name of the PackageInfo of the package.
  unfoldable pub prune_info :
      Bool
      → String
      → ReconciledPackage S
      → List (ReconciledPackage S)
      → OwnedResourceRef
      → PruneState W
      → PruneState W × Bool
  unfolding info_still_used forget
  prune_info all own this packages ref s = (
    if not all && str_eq ref.name own
        then s
        else if info_still_used this packages ref
        then forget_info ref s
        else after_delete (forget_info ref) (api.delete s.world ref) s,
    false,
  )

  -- A package that no other one owns, as pruneOwnedPackages finds it.
  unfoldable pub prune_unused : OwnedResourceRef → PruneState W → PruneState W
  unfolding forget
  prune_unused ref s =
      elim (api.get_package s.world (str_eq ref.kind "Package") ref.name ref.namespace) [
        | not_found ↦ forget ref (forget ref s)
        | get_failed e ↦ failing e s
        | found old ↦
            if old.installed_as_dependency
            then after_delete (forget ref) (api.delete_in_foreground s.world ref) s
            else forget ref s
      ]

  -- A round of pruneOwnedPackages. A reference of another kind ends the method.
  unfoldable pub prune_package :
      Bool
      → List OwnedResourceRef
      → ReconciledPackage S
      → List (ReconciledPackage S)
      → OwnedResourceRef
      → PruneState W
      → PruneState W × Bool
  unfolding is_current package_still_used prune_unused forget
  prune_package all current this packages ref s =
      if not all && is_current current ref
      then (s, false)
      else if package_still_used this packages ref
      then (forget ref s, false)
      else if str_eq ref.kind "ClusterPackage" || str_eq ref.kind "Package"
      then (prune_unused ref s, false)
      else (record s { halted = some "owned package ref has invalid kind" }, true)

  -- What a method leaves in its context, with the errors that it returns.
  abbrev pub Pruned : Type 0
  Pruned = Context W S × List String

  abbrev pub leave :
      (List OwnedResourceRef → ReconciledPackage S) → Context W S → PruneState W → Pruned
  leave write c s = (
    record c {
      pkg = write (elements s.slice);
      world = s.world;
      should_update_status = c.should_update_status || s.should_update;
    },
    s.errs,
  )

  -- Where the method ended early, the status keeps the old length of its list, and the error is the
  -- last one alone.
  abbrev pub leave_packages : Context W S → PruneState W → Pruned
  leave_packages c s = elim s.halted [
    | none ↦ leave (λ refs. record (c.pkg) { owned_packages = refs }) c s
    | some e ↦ (
      record c {
        pkg = record (c.pkg) { owned_packages = s.slice.array };
        world = s.world;
        should_update_status = c.should_update_status || s.should_update;
      },
      e ∷ [],
    )
  ]

  unfoldable pub prune_owned_resources : Context W S → Pruned
  unfolding pruned_resources
  prune_owned_resources c =
      leave (λ refs. record (c.pkg) { owned_resources = refs }) c (pruned_resources c)

  -- pruneOwnedPackageInfos
  unfoldable pub prune_owned_package_infos : String → Bool → Context W S → Pruned
  unfolding prune_info get_all_packages range_from
  prune_owned_package_infos own all c = elim (get_all_packages c.world) [
    | err e ↦ (c, e ∷ [])
    | ok packages ↦
        leave (λ refs. record (c.pkg) { owned_package_infos = refs }) c
          (range_from array_of (prune_info all own c.pkg packages)
            (length c.pkg.owned_package_infos) 0 (start_of c.world c.pkg.owned_package_infos))
  ]

  -- pruneOwnedPackages
  unfoldable pub prune_owned_packages : Bool → Context W S → Pruned
  unfolding prune_package get_all_packages range_from
  prune_owned_packages all c = elim (get_all_packages c.world) [
    | err e ↦ (c, e ∷ [])
    | ok packages ↦ leave_packages c (
        range_from array_of (prune_package all c.current_owned_packages c.pkg packages)
          (length c.pkg.owned_packages) 0 (start_of c.world c.pkg.owned_packages))
  ]
