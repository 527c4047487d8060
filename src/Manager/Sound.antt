-- ===== src/Manager/Sound.antt =====
-- What a verdict of the dependency manager without a conflict promises.
use glasskube.Base.{
  ℕ, String, ◌≡◌, ◌≢◌, refl, ◌∙◌, ap, false, some, List, [], ◌∷◌, ◌++◌, ok, err, Bool-cases, inl,
  inr, IsIn, here,
}
use glasskube.Semver.{Semver}
use glasskube.Manifest.{PackageManifest}
use glasskube.Graph.Types.{VertexRef, same_ref, Graph, DependencyError}
use glasskube.Graph.VertexMap.{vertex_at, empty_graph}
use glasskube.Graph.Queries.{ref_of}
use glasskube.Graph.Validate.{validate}
use glasskube.Graph.Changes.{add_cluster, add_namespaced}
use glasskube.Graph.WellFormed.{IsWellFormed, empty-IsWellFormed}
use glasskube.Graph.Consistency.{IsConsistent, validate_iff}
use glasskube.Graph.Add.Contract.{add-IsWellFormed}
use glasskube.Manager.Types.{
  RepoAdapter, PackageClient, InstalledPackage, Requirement, Conflict, ValidationResult,
  status_conflict,
}
use glasskube.Manager.Installed.{added, listed, new_graph, add_installed, add_all_installed}
use glasskube.Manager.Resolve.{Resolved, add, add_dependencies}
use glasskube.Manager.Verdict.{new_conflicts, result, plan, verdict, validate_package}
use glasskube.Manager.Plan.{
  IsInstalled, Grows, manager_add-IsWellFormed, add-kept, added-ok, add_dependencies-Grows,
}
use glasskube.Manager.News.{Returns, Returns-bind, Returns-ok, WasThere, new_conflicts-nil}

module _ {V C : Type 0} (lib : Semver V C) where
  module _ (client : PackageClient) (repo : RepoAdapter) where
    add_installed-IsWellFormed :
        (g : Graph V C) (pkg : InstalledPackage) (manifest : PackageManifest)
        → IsWellFormed g
        → IsWellFormed (add_installed lib client repo g pkg manifest).0
    unfolding add_installed add_cluster add_namespaced
    add_installed-IsWellFormed g pkg manifest wf = elim (Bool-cases pkg.is_namespace_scoped) [
      | inl e ↦ rw e (add-IsWellFormed lib g (ref_of pkg.name pkg.namespace) manifest _ _ wf)
      | inr e ↦ rw e (add-IsWellFormed lib g (ref_of manifest.name "") manifest _ _ wf)
    ]

    add_all_installed-IsWellFormed :
        (pkgs : List InstalledPackage) (g : Graph V C)
        → IsWellFormed g
        → Returns IsWellFormed (add_all_installed lib client repo g pkgs)
    unfolding add_all_installed
    add_all_installed-IsWellFormed [] g wf = wf
    add_all_installed-IsWellFormed (pkg ∷ pkgs) g wf =
        Returns-bind IsWellFormed _ _ λ manifest at_manifest.
          Returns-bind IsWellFormed (added (add_installed lib client repo g pkg manifest)) _
            λ h at_h. add_all_installed-IsWellFormed pkgs h (
              rw (← (added-ok (add_installed lib client repo g pkg manifest) h at_h).0)
                (add_installed-IsWellFormed g pkg manifest wf))

    -- NewGraph, where it returns, returns a well-formed graph.
    pub new_graph-IsWellFormed : Returns IsWellFormed (new_graph lib client repo)
    unfolding new_graph
    new_graph-IsWellFormed =
        Returns-bind IsWellFormed (listed client.list_cluster_packages) _ λ cluster at_cluster.
          Returns-bind IsWellFormed (listed client.list_packages) _ λ namespaced at_namespaced.
            add_all_installed-IsWellFormed (cluster ++ namespaced) empty_graph empty-IsWellFormed

  -- What installing a package at `ref` promises of the graph that it leads to.
  pub record IsSafe (before after : Graph V C) (ref : VertexRef) : Type 0 where
    pub well_formed : IsWellFormed after
    pub no_new_error :
        (e : DependencyError V C) → IsIn e (validate lib after) → WasThere e (validate lib before)
    pub consistent : IsConsistent lib before → IsConsistent lib after
    pub kept :
        (k : VertexRef)
        → k.namespace ≢ ""
        → same_ref ref k ≡ false
        → IsInstalled before k
        → vertex_at after k ≡ vertex_at before k

  nothing_new :
      (es : List (DependencyError V C))
      → ((e : DependencyError V C) → IsIn e es → WasThere e [])
      → es ≡ []
  nothing_new [] old = refl
  nothing_new (x ∷ xs) old = let (first, is_in, p, d) = old x (here refl) in elim is_in [ ]

  no_conflicts :
      (requirements : List Requirement) (conflicts : List (Conflict V C))
      → (result lib requirements conflicts).status ≢ status_conflict
      → conflicts ≡ []
  no_conflicts requirements [] fine = refl
  no_conflicts requirements (c ∷ cs) fine = absurd (fine refl)

  module _ (client : PackageClient) (repo : RepoAdapter)
      (sort : List Requirement → List Requirement) (fuel : ℕ) (name namespace : String)
      (manifest : PackageManifest) (version : String) where
    abbrev planned : Graph V C → Resolved V C
    planned before = plan lib client repo sort fuel before name namespace manifest version

    abbrev IsKept : Graph V C → Graph V C × List Requirement → Type 0
    IsKept before (after, requirements) =
        IsWellFormed after
        × ((k : VertexRef)
            → k.namespace ≢ ""
            → same_ref (ref_of name namespace) k ≡ false
            → IsInstalled before k
            → vertex_at after k ≡ vertex_at before k)

    IsKept-grown :
        (before h : Graph V C)
        → ((k : VertexRef)
            → k.namespace ≢ ""
            → same_ref (ref_of name namespace) k ≡ false
            → IsInstalled before k
            → vertex_at h k ≡ vertex_at before k)
        → (run : Resolved V C) → Grows lib repo h run
        → Returns (IsKept before) run
    IsKept-grown before h kept_h (ok (s, more)) grown = (
      grown.well_formed,
      λ k n away there. let e = kept_h k n away there in grown.kept k n (rw e there) ∙ e,
    )
    IsKept-grown before h kept_h (err stop) grown = tt

    IsKept-planned :
        (before : Graph V C) → IsWellFormed before → Returns (IsKept before) (planned before)
    unfolding plan
    IsKept-planned before wf =
        let first = add lib repo before name namespace manifest version in
        Returns-bind (IsKept before) (added first) _ λ h at_h.
          (let same = (added-ok first h at_h).0 in
            let ok_h : IsWellFormed h =
              rw (← same)
                (manager_add-IsWellFormed lib repo before name namespace manifest version wf) in
            IsKept-grown before h
              (λ k n away there.
                rw same at
                  (add-kept lib repo before name namespace manifest version wf k n away there))
              (add_dependencies lib repo fuel h name namespace false)
              (add_dependencies-Grows lib repo fuel h name namespace false ok_h))

    IsSafe-of_plan :
        (before after : Graph V C) (requirements : List Requirement)
        → IsWellFormed before
        → planned before ≡ ok (after, requirements)
        → new_conflicts lib (validate lib before) (validate lib after) ≡ ok []
        → IsSafe before after (ref_of name namespace)
    IsSafe-of_plan before after requirements wf at_after none_new =
        let (well_formed, kept) =
          Returns-ok (IsKept before) (planned before) (after, requirements)
            (IsKept-planned before wf) at_after in
        let old = new_conflicts-nil lib (validate lib before) (validate lib after) none_new in
        record {
          well_formed = well_formed;
          no_new_error = old;
          consistent = λ ok_before. (validate_iff lib after).0 (
              nothing_new (validate lib after) (rw ((validate_iff lib before).1 ok_before) at old));
          kept = kept;
        }

    abbrev Promise : ValidationResult V C → Type 0
    Promise r =
        r.status ≢ status_conflict
        → (before after : Graph V C) × (requirements : List Requirement) × (new_graph lib client
              repo
            ≡ ok before)
          × (planned before ≡ ok (after, requirements))
          × (r.requirements ≡ sort requirements)
          × IsSafe before after (ref_of name namespace)

    Promise-of_run :
        Returns Promise
          (validate_package lib client repo sort fuel name namespace (some manifest) version)
    unfolding validate_package verdict
    Promise-of_run = Returns-bind Promise (new_graph lib client repo) _ λ before at_before.
        Returns-bind Promise (planned before) _ λ (after, requirements) at_after.
          Returns-bind Promise (new_conflicts lib (validate lib before) (validate lib after)) _
            λ conflicts at_conflicts fine. (
              before,
              after,
              requirements,
              at_before,
              at_after,
              refl,
              IsSafe-of_plan before after requirements
                  (Returns-ok IsWellFormed _ before (new_graph-IsWellFormed client repo) at_before)
                  at_after
                  (rw at_conflicts (ap ok (no_conflicts (sort requirements) conflicts fine))),
            )

    -- A verdict other than a conflict, where Validate returns one, is about a graph that NewGraph
    -- built and that the installation and its requirements changed: that graph is well formed, its
    -- errors are about packages of which the graph before had an error, it is consistent if the graph
    -- before was, and it has every installed namespaced package but the one to be installed as it was.
    pub validate_package-IsSafe :
        (r : ValidationResult V C)
        → validate_package lib client repo sort fuel name namespace (some manifest) version ≡ ok r
        → r.status ≢ status_conflict
        → (before after : Graph V C) × (requirements : List Requirement) × (new_graph lib client
              repo
            ≡ ok before)
          × (planned before ≡ ok (after, requirements))
          × (r.requirements ≡ sort requirements)
          × IsSafe before after (ref_of name namespace)
    validate_package-IsSafe r returned fine = Returns-ok Promise _ r Promise-of_run returned fine

    -- A verdict has the status of a conflict only if it has one.
    pub fine_of_no_conflicts :
        (r : ValidationResult V C)
        → validate_package lib client repo sort fuel name namespace (some manifest) version ≡ ok r
        → r.conflicts ≡ []
        → r.status ≢ status_conflict
    unfolding validate_package verdict
    fine_of_no_conflicts r returned = Returns-ok IsFine _ r fine returned
      where
        IsFine : ValidationResult V C → Type 0
        IsFine r = r.conflicts ≡ [] → r.status ≢ status_conflict

        not_conflict :
            (requirements : List Requirement) (conflicts : List (Conflict V C))
            → conflicts ≡ []
            → (result lib requirements conflicts).status ≢ status_conflict
        not_conflict [] [] none_there e = cc
        not_conflict (x ∷ xs) [] none_there e = cc
        not_conflict requirements (c ∷ cs) none_there e = cc

        fine :
            Returns IsFine
              (validate_package lib client repo sort fuel name namespace (some manifest) version)
        fine = Returns-bind IsFine (new_graph lib client repo) _ λ before at_before.
            Returns-bind IsFine (planned before) _ λ (after, requirements) at_after.
              Returns-bind IsFine (new_conflicts lib (validate lib before) (validate lib after)) _
                λ conflicts at_conflicts none_there e.
                  absurd (not_conflict (sort requirements) conflicts none_there e)
