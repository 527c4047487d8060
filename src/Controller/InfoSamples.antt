-- ===== src/Controller/InfoSamples.antt =====
-- A PackageInfo that is synced for the first time. The API server counts the updates.
use glasskube.Base.{ℕ, suc, String, ◌≡◌, refl, false, none, ◌⊎◌, Result, ok, err, []}
use glasskube.Manifest.{empty_manifest}
use glasskube.Controller.Conditions.{set_failed_and_update}
use glasskube.Controller.Types.{found}
use glasskube.Controller.Infos.{
  InfoObject, InfoApi, later, with_errors, should_sync_from_repo, reconcile_package_info,
  reconcile_repository,
}
use glasskube.Controller.Synced.{IsSynced, reconcile_package_info-IsSynced}
use glasskube.Controller.Samples.{Conditions, conditions_in_order}

abbrev unsynced : InfoObject Conditions
unsynced = record {
  resource_version = "7";
  spec = record { name = "shop"; version = "1"; repository_name = "main" };
  manifest = none;
  version = "";
  resolved_url = "";
  last_update = none;
  conditions = [];
}

abbrev counting : Result String (Unit {0}) → InfoApi ℕ Conditions
counting reply = record {
  get = λ w. found unsynced;
  update_status = λ w pi. (suc w, none);
  fetch_package_manifest =
      λ repository name version. elim reply [ ok u ↦ ok empty_manifest | err e ↦ err e ];
  get_package_manifest_url = λ repository name version. ok "https://example.com/package.yaml";
}

first_sync : reconcile_package_info (counting (ok tt)) conditions_in_order 1000 0 ≡ (1, later)
unfolding reconcile_package_info
first_sync = refl

failed_sync :
    reconcile_package_info (counting (err "offline")) conditions_in_order 1000 0
    ≡ (1, with_errors "offline" [])
unfolding reconcile_package_info set_failed_and_update
failed_sync = refl

reconcile_package_info-IsSynced_example :
    ((should_sync_from_repo 1000 unsynced ≡ false) × (◌≡◌ {A = ℕ} 1 0))
    ⊎ IsSynced (counting (ok tt)) conditions_in_order 1000 0 1 unsynced
reconcile_package_info-IsSynced_example =
    reconcile_package_info-IsSynced (counting (ok tt)) conditions_in_order 1000 0 1 unsynced refl
      first_sync

unreachable_repository :
    reconcile_repository conditions_in_order
      (λ n. "repo has packages")
      (λ w s. (suc w, none))
      0
      []
      (err "offline")
    ≡ (1, with_errors "offline" [])
unfolding reconcile_repository
unreachable_repository = refl
