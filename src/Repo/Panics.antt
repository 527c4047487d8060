-- ===== src/Repo/Panics.antt =====
-- When the default repository adapter dereferences a nil repository.
use glasskube.Base.{
  ◌≤◌, String, ◌≡◌, ◌≢◌, refl, true, false, not, ◌||◌, ◌↔◌, none, List, [], ◌∷◌, ◌++◌, Result, ok,
  err, Result-cases, arith, length, Bool-cases, inl, inr,
}
use glasskube.Manifest.{PackageManifest}
use glasskube.Manager.Types.{Faults, is_partial, is_complete, fault, Call, panicked}
use glasskube.Repo.Types.{PackageRepoIndexItem, PackageIndex, PackageRepository, RepoClients}
use glasskube.Repo.Meta.{with_index, partial_or_complete, repos_from, get_repos_for_package}
use glasskube.Repo.Adapter.{
  repo_of, get_repo_for_package, with_repo, versions_of, manifest_of, get_versions, get_manifest,
}

is_partial-append : (es fs : Faults) → is_partial (es ++ fs) ≡ (is_partial es || is_partial fs)
unfolding is_partial
is_partial-append [] fs = refl
is_partial-append (e ∷ es) fs = ground (arith, is_partial-append es fs)

module _ (clients : RepoClients) (name : String) where
  with_index-is_partial :
      (repo : PackageRepository) (reply : Result String (List PackageRepoIndexItem))
      (found : List PackageRepository × Faults)
      → is_partial (with_index clients name repo reply found).1 ≡ is_partial found.1
  unfolding is_partial
  with_index-is_partial repo (ok index) (found, errs) = refl
  with_index-is_partial repo (err e) (found, errs) =
      ground (arith, is_partial-append errs (fault e))

  repos_from-is_partial :
      (repos : List PackageRepository) (found : List PackageRepository × Faults)
      → is_partial found.1 ≡ false
      → is_partial (repos_from clients name repos found).1 ≡ false
  unfolding repos_from
  repos_from-is_partial [] found whole = whole
  repos_from-is_partial (x ∷ xs) found whole =
      let reply = clients.fetch_package_repo_index x in
      repos_from-is_partial xs (with_index clients name x reply found)
        (rw (with_index-is_partial x reply found) whole)

  -- With no repository at all the error is no partial one.
  none_found-is_partial :
      (p : List PackageRepository × Faults)
      → is_partial p.1 ≡ false
      → (partial_or_complete clients p).0 ≡ []
      → is_partial (partial_or_complete clients p).1 ≡ false
  unfolding is_partial
  none_found-is_partial (rs, []) whole e = refl
  none_found-is_partial ([], e ∷ es) whole empty = whole
  none_found-is_partial (r ∷ rs, e ∷ es) whole empty = cc

  pub get_repos_for_package-is_partial :
      (get_repos_for_package clients name).0 ≡ []
      → is_partial (get_repos_for_package clients name).1 ≡ false
  unfolding get_repos_for_package is_partial
  get_repos_for_package-is_partial = elim (Result-cases clients.list_package_repositories) [
    | inr (e, failed) ↦ rw (failed, get_repos_for_package) (λ empty. refl)
    | inl (repos, listed) ↦
        rw (listed, get_repos_for_package)
          (none_found-is_partial (repos_from clients name repos ([], []))
            (repos_from-is_partial repos ([], []) refl))
  ]

-- Several repositories have the package, and the error is a partial one.
abbrev pub IsAmbiguous : List PackageRepository × Faults → Type 0
IsAmbiguous (repos, errs) = (2 ≤ length repos) × (is_partial errs ≡ true)

is_complete-append :
    (errs : Faults) (message : String) → is_complete (errs ++ fault message) ≡ not (is_partial errs)
unfolding is_complete is_partial
is_complete-append [] message = refl
is_complete-append (e ∷ es) message = ground (arith, is_partial-append es (fault message))

module _ {A : Type 0} (clients : RepoClients) (default : A)
    (use_repo : PackageRepository → Faults → Call A)
    (runs : (repo : PackageRepository) (errs : Faults) → use_repo repo errs ≢ panicked) where
  with_repo_iff :
      (p : List PackageRepository × Faults)
      → (p.0 ≡ [] → is_partial p.1 ≡ false)
      → (with_repo clients default (repo_of p) use_repo ≡ panicked) ↔ IsAmbiguous p
  unfolding is_complete is_partial
  with_repo_iff ([], errs) whole =
      (λ e. ground (arith, whole refl), λ h. absurd (omega (arith, h.0)))
  with_repo_iff (r ∷ [], errs) whole = elim (Bool-cases (is_complete errs)) [
    | inl stops ↦ (λ e. cc (rw stops at e), λ h. absurd (omega (arith, h.0)))
    | inr goes_on ↦ (λ e. absurd (runs r errs (rw goes_on at e)), λ h. absurd (omega (arith, h.0)))
  ]
  with_repo_iff (r ∷ s ∷ rs, errs) whole =
      let complete = is_complete-append errs "available from several repositories" in
      elim (Bool-cases (is_partial errs)) [
        | inl partial ↦ (λ e. (omega arith, partial), λ h. rw complete (rw partial refl))
        | inr not_partial ↦
            (λ e. cc (rw not_partial at (rw complete at e)), λ h. cc (not_partial, h.1))
      ]

module _ (clients : RepoClients) where
  versions_of-runs :
      (errs : Faults) (reply : Result String PackageIndex)
      → versions_of clients errs reply ≢ panicked
  versions_of-runs errs (ok index) e = cc
  versions_of-runs errs (err x) e = cc

  manifest_of-runs :
      (errs : Faults) (reply : Result String PackageManifest)
      → manifest_of clients errs reply ≢ panicked
  manifest_of-runs errs (ok manifest) e = cc
  manifest_of-runs errs (err x) e = cc

  -- GetVersions and GetManifest dereference a nil repository exactly where several repositories have
  -- the package and the error of GetReposForPackage is a partial one.
  pub get_versions-panics_iff :
      (name version : String)
      → ((get_versions clients name ≡ panicked) ↔ IsAmbiguous (get_repos_for_package clients name))
        × ((get_manifest clients name version ≡ panicked)
            ↔ IsAmbiguous (get_repos_for_package clients name))
  unfolding get_versions get_manifest get_repo_for_package
  get_versions-panics_iff name version = (
    with_repo_iff clients [] _
        (λ repo errs. versions_of-runs errs (clients.fetch_package_index repo name))
        (get_repos_for_package clients name) (get_repos_for_package-is_partial clients name),
    with_repo_iff clients none _
        (λ repo errs. manifest_of-runs errs (clients.fetch_package_manifest repo name version))
        (get_repos_for_package clients name) (get_repos_for_package-is_partial clients name),
  )
