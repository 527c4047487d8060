-- ===== src/Controller/Synced.antt =====
-- What the controller of PackageInfos has done when it returns without an error.
use mathlib.Core.Path.{subst}
use glasskube.Base.{
  ℕ, ◌≢◌, ◌-◌, String, ◌≡◌, refl, sym, ap, true, false, ◌⊎◌, inl, inr, Option, none, some, Result,
  ok, err, bind-eq-ok, Bool-cases, arith, ltb, str_eq, eq_iff,
}
use glasskube.Manifest.{PackageManifest}
use glasskube.Controller.Conditions.{ConditionApi}
use glasskube.Controller.Types.{Reply, found, not_found, get_failed}
use glasskube.Controller.Infos.{
  InfoObject, InfoApi, Return, later, repository_sync_interval, should_sync_from_repo,
  update_package_manifest, with_update_error, fail_sync, written, synced, write_synced, after_fetch,
  reconcile_found, reconcile_package_info,
}

module _ {W S : Type 0} (api : InfoApi W S) (conditions : ConditionApi S) (now : ℕ) where
  -- The status that has been written: the manifest of the repository for the version of the spec. It is
  -- out of date once the interval has passed.
  pub record IsSynced (w w' : W) (pi : InfoObject S) : Type 0 where
    pub next : InfoObject S
    pub manifest : PackageManifest
    pub fetched :
        api.fetch_package_manifest pi.spec.repository_name pi.spec.name pi.spec.version
        ≡ ok manifest
    pub has_manifest : next.manifest ≡ some manifest
    pub has_version : next.version ≡ pi.spec.version
    pub is_written : api.update_status w next ≡ (w', none)
    pub is_current : (t : ℕ) → should_sync_from_repo t next ≡ ltb repository_sync_interval (t - now)

  abbrev return_of : W × Return → Return
  return_of p = p.1

  written-later :
      (reply : W × Option String) (w' : W)
      → written api conditions now reply ≡ (w', later)
      → reply ≡ (w', none)
  written-later (w, none) w' e = ap (λ (p : W × Return). (p.0, none)) e
  written-later (w, some m) w' e = cc (ap return_of e)

  write_synced-later :
      (w w' : W) (pi : InfoObject S) (reply : Reply (InfoObject S))
      → write_synced api conditions now w pi reply ≡ (w', later)
      → api.update_status w (synced api conditions now pi) ≡ (w', none)
  unfolding write_synced
  write_synced-later w w' pi (get_failed m) e = cc (ap return_of e)
  write_synced-later w w' pi not_found e = cc (ap return_of e)
  write_synced-later w w' pi (found other) e =
      elim (Bool-cases (str_eq pi.resource_version other.resource_version)) [
        | inl latest ↦
            written-later (api.update_status w (synced api conditions now pi)) w' (rw latest at e)
        | inr newer ↦ cc (ap return_of (rw newer at e))
      ]

  with_update_error-later :
      (m : String) (e : Option String) → with_update_error api conditions now m e ≢ later
  with_update_error-later m none e = cc
  with_update_error-later m (some n) e = cc

  str_eq_self : (x : String) → str_eq x x ≡ true
  str_eq_self x = (eq_iff x x).1 refl

  -- The PackageInfo that updatePackageManifest leaves.
  abbrev updated : InfoObject S → PackageManifest → String → InfoObject S
  updated pi manifest url = record pi {
    resolved_url = url;
    manifest = some manifest;
    version = pi.spec.version;
  }

  synced-is_current :
      (pi : InfoObject S) (manifest : PackageManifest) (url : String) (t : ℕ)
      → should_sync_from_repo t (synced api conditions now (updated pi manifest url))
        ≡ ltb repository_sync_interval (t - now)
  unfolding synced should_sync_from_repo
  synced-is_current pi manifest url t = ground (arith, str_eq_self pi.spec.version)

  updated-later :
      (w w' : W) (pi : InfoObject S) (manifest : PackageManifest) (url : String)
      → api.fetch_package_manifest pi.spec.repository_name pi.spec.name pi.spec.version
        ≡ ok manifest
      → after_fetch api conditions now w pi (ok (updated pi manifest url)) ≡ (w', later)
      → IsSynced w w' pi
  unfolding synced
  updated-later w w' pi manifest url fetched e = record {
    next = synced api conditions now (updated pi manifest url);
    manifest = manifest;
    fetched = fetched;
    has_manifest = refl;
    has_version = refl;
    is_written = write_synced-later w w' (updated pi manifest url) (api.get w) e;
    is_current = synced-is_current pi manifest url;
  }

  after_fetch-later :
      (w w' : W) (pi : InfoObject S) (r : Result String (InfoObject S))
      → update_package_manifest api conditions now pi ≡ r
      → after_fetch api conditions now w pi r ≡ (w', later)
      → IsSynced w w' pi
  unfolding update_package_manifest fail_sync
  after_fetch-later w w' pi (err m) made e = absurd (with_update_error-later m _ (ap return_of e))
  after_fetch-later w w' pi (ok pi') made e =
      let spec = pi.spec in
      let (manifest, fetched, rest) =
        bind-eq-ok (api.fetch_package_manifest spec.repository_name spec.name spec.version) _
          made in
      let (url, has_url, is_next) =
        bind-eq-ok (api.get_package_manifest_url spec.repository_name spec.name spec.version) _
          rest in
      updated-later w w' pi manifest url fetched (
        subst
          (λ (r : Result String (InfoObject S)).
            after_fetch api conditions now w pi r ≡ (w', later))
          (sym is_next) e)

  -- Where Reconcile returns without an error and is not to run at once, the PackageInfo that the API
  -- server has found was up to date and nothing is written, or its status has been written, with the
  -- manifest that the repository has for the version of its spec, and is up to date until the interval
  -- has passed.
  pub reconcile_package_info-IsSynced :
      (w w' : W) (pi : InfoObject S)
      → api.get w ≡ found pi
      → reconcile_package_info api conditions now w ≡ (w', later)
      → ((should_sync_from_repo now pi ≡ false) × (w' ≡ w)) ⊎ IsSynced w w' pi
  unfolding reconcile_package_info
  reconcile_package_info-IsSynced w w' pi there_is e =
      let e' : reconcile_found api conditions now w pi ≡ (w', later) =
        rw (there_is, reconcile_package_info) at e in
      elim (Bool-cases (should_sync_from_repo now pi)) [
        | inr up_to_date ↦
            inl (up_to_date, sym (ap (λ (p : W × Return). p.0) (rw up_to_date at e')))
        | inl due ↦ inr (
            after_fetch-later w w' pi (update_package_manifest api conditions now pi) refl
              (rw due at e'))
      ]
