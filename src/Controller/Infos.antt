-- ===== src/Controller/Infos.antt =====
-- The controllers of PackageInfos and of PackageRepositories:
-- internal/controller/packageinfo_controller.go and packagerepository_controller.go.
use glasskube.Base.{
  ℕ, ◌-◌, String, Bool, true, not, ◌&&◌, ◌||◌, Option, none, some, List, [], ◌∷◌, ◌++◌, str_eq, ltb,
  Result, ok, err, ◌>>=◌, if◌then◌else◌, length,
}
use glasskube.Manifest.{PackageManifest}
use glasskube.Repo.Types.{PackageRepoIndexItem}
use glasskube.Controller.Conditions.{
  Condition, condition_true, condition_false, ready, ConditionApi, set_ready, set_failed_and_update,
}
use glasskube.Controller.Types.{PackageInfoTemplate, Reply, found, not_found, get_failed}

-- A PackageInfo with its spec and status. Times are in seconds.
pub record InfoObject (S : Type 0) : Type 0 where
  pub resource_version : String
  pub spec : PackageInfoTemplate
  pub manifest : Option PackageManifest
  pub version : String
  pub resolved_url : String
  pub last_update : Option ℕ
  pub conditions : S

-- The API server for the object of the request, and the client of a repository by its name. The texts
-- of errors are those of the API server and of the client.
pub record InfoApi (W S : Type 0) : Type 0 where
  pub get : W → Reply (InfoObject S)
  pub update_status : W → InfoObject S → W × Option String
  pub fetch_package_manifest : String → String → String → Result String PackageManifest
  pub get_package_manifest_url : String → String → String → Result String String

-- How Reconcile returns: with an empty result, with an error, with the demand to run again at once, or
-- after RequeueDuration.
pub data Return : Type 0 where
  settled at_once later : Return
  with_errors : String → List String → Return

-- repositorySyncInterval
abbrev pub repository_sync_interval : ℕ
repository_sync_interval = 300

abbrev pub is_outdated : ℕ → Option ℕ → Bool
is_outdated now none = true
is_outdated now (some t) = ltb repository_sync_interval (now - t)

module _ {S : Type 0} where
  -- shouldSyncFromRepo
  unfoldable pub should_sync_from_repo : ℕ → InfoObject S → Bool
  should_sync_from_repo now pi =
      is_outdated now pi.last_update
      || (not (str_eq pi.spec.version "") && not (str_eq pi.spec.version pi.version))

module _ {W S : Type 0} (api : InfoApi W S) (conditions : ConditionApi S) (now : ℕ) where
  -- updatePackageManifest
  unfoldable pub update_package_manifest : InfoObject S → Result String (InfoObject S)
  update_package_manifest pi =
      let spec = pi.spec in
      api.fetch_package_manifest spec.repository_name spec.name spec.version >>= λ manifest.
      api.get_package_manifest_url spec.repository_name spec.name spec.version >>= λ url.
      ok (record pi { resolved_url = url; manifest = some manifest; version = spec.version })

  abbrev pub with_update_error : String → Option String → Return
  with_update_error e none = with_errors e []
  with_update_error e (some e') = with_errors e (e' ∷ [])

  unfoldable pub fail_sync : W → InfoObject S → String → W × Return
  unfolding set_failed_and_update
  fail_sync w pi e =
      let (w', s, changed, e') =
        set_failed_and_update conditions (λ v s. api.update_status v (record pi { conditions = s }))
          w pi.conditions "SyncFailed" e in
      (w', with_update_error e e')

  abbrev pub written : W × Option String → W × Return
  written (w, none) = (w, later)
  written (w, some e) = (w, with_errors e [])

  -- The status that is written after a sync.
  unfoldable pub synced : InfoObject S → InfoObject S
  unfolding set_ready
  synced pi = record pi {
    last_update = some now;
    conditions = (set_ready conditions pi.conditions "SyncCompleted" "PackageInfo is up-to-date").0;
  }

  unfoldable pub write_synced : W → InfoObject S → Reply (InfoObject S) → W × Return
  unfolding synced
  write_synced w pi (get_failed e) = (w, with_errors e [])
  write_synced w pi not_found = (w, with_errors "not found" [])
  write_synced w pi (found other) =
      if str_eq pi.resource_version other.resource_version
      then written (api.update_status w (synced pi))
      else (w, at_once)

  abbrev pub after_fetch : W → InfoObject S → Result String (InfoObject S) → W × Return
  after_fetch w pi (err e) = fail_sync w pi e
  after_fetch w pi (ok pi') = write_synced w pi' (api.get w)

  abbrev pub reconcile_found : W → InfoObject S → W × Return
  reconcile_found w pi =
      if should_sync_from_repo now pi
      then after_fetch w pi (update_package_manifest pi)
      else (w, later)

  abbrev pub on_reply : W → Reply (InfoObject S) → W × Return
  on_reply w not_found = (w, settled)
  on_reply w (get_failed e) = (w, with_errors e [])
  on_reply w (found pi) = reconcile_found w pi

  -- PackageInfoReconciler.Reconcile
  unfoldable pub reconcile_package_info : W → W × Return
  unfolding should_sync_from_repo update_package_manifest fail_sync write_synced
  reconcile_package_info w = on_reply w (api.get w)

-- PackageRepositoryReconciler.Reconcile, for the repository that the API server has found: the answer
-- of FetchPackageRepoIndex, the conditions, and the update of the status.
module _ {W S : Type 0} (conditions : ConditionApi S) (has_packages : ℕ → String)
    (update_status : W → S → W × Option String) where
  abbrev pub repository_condition : Result String (List PackageRepoIndexItem) → Condition
  repository_condition (err e) = record {
    type = ready;
    status = condition_false;
    reason = "SyncFailed";
    message = e;
  }
  repository_condition (ok packages) = record {
    type = ready;
    status = condition_true;
    reason = "SyncCompleted";
    message = has_packages (length packages);
  }

  abbrev pub fetch_errors : Result String (List PackageRepoIndexItem) → List String
  fetch_errors (err e) = e ∷ []
  fetch_errors (ok packages) = []

  abbrev pub update_errors : Option String → List String
  update_errors none = []
  update_errors (some e) = e ∷ []

  abbrev pub returning : W → List String → W × Return
  returning w [] = (w, later)
  returning w (e ∷ es) = (w, with_errors e es)

  unfoldable pub reconcile_repository :
      W → S → Result String (List PackageRepoIndexItem) → W × Return
  reconcile_repository w s index =
      let (s', changed) = conditions.set_status_condition s (repository_condition index) in
      let (w', e) = update_status w s' in
      if changed
      then returning w' (fetch_errors index ++ update_errors e)
      else returning w (fetch_errors index)
