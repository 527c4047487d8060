-- ===== src/Manager/Enough.antt =====
-- Validate of internal/dependency/manager.go ends with as much fuel as there are packages.
use glasskube.Base.{
  ℕ, ◌<◌, String, ◌≡◌, ◌≢◌, refl, false, some, List, [], ◌∷◌, ◌++◌, arith, str_eq, Result, ok, err,
  ◌>>=◌, if◌then◌else◌, if_both, length, Bool-cases, inl, inr, IsIn,
}
use mathlib.Core.Path.{subst}
use glasskube.Semver.{Semver}
use glasskube.Manifest.{PackageManifest}
use glasskube.Graph.Types.{
  PackageRef, VertexRef, Graph, DependencyError, Cause, not_installed, constraint_error,
}
use glasskube.Graph.Queries.{ref_of, package_ref, manual}
use glasskube.Graph.Changes.{Outcome, add_cluster, add_namespaced}
use glasskube.Graph.Validate.{validate}
use glasskube.Graph.Add.{Target, targets}
use glasskube.Graph.WellFormed.{IsWellFormed}
use glasskube.Manager.Types.{
  out_of_fuel, Run, RepoAdapter, PackageClient, InstalledPackage, Requirement,
}
use glasskube.Manager.Installed.{
  new_graph, added, listed, add_all_installed, installed_manifest, add_installed,
  get_manifest_for_installed_pkg,
}
use glasskube.Manager.Resolve.{add, add_dependencies}
use glasskube.Manager.Verdict.{
  validate_package, plan, verdict, new_conflicts, error_to_conflict, is_err_new,
}
use glasskube.Manager.Plan.{added-ok, manager_add-IsWellFormed}
use glasskube.Manager.News.{Returns-ok}
use glasskube.Manager.Sound.{new_graph-IsWellFormed}
use glasskube.Manager.Covered.{IsCovered, add-IsCovered}
use glasskube.Manager.Fuel.{missing-length, checked-err, added-err, IsClosed, IsTame}
use glasskube.Manager.Ending.{Ends-fuel, add_dependencies-Ends}

module _ {V C : Type 0} where
  bind-fuel :
      {A B : Type 0} (r : Run V C A) (f : A → Run V C B)
      → r ≢ err out_of_fuel
      → ((a : A) → r ≡ ok a → f a ≢ err out_of_fuel)
      → (r >>= f) ≢ err out_of_fuel
  bind-fuel (ok a) f first rest = rest a refl
  bind-fuel (err e) f first rest = λ out. first (cc out)

  added-fuel : (r : Outcome V C) → added r ≢ err out_of_fuel
  added-fuel r out = added-err r out refl

  listed-fuel :
      (r : Result String (List InstalledPackage))
      → ◌≢◌ {A = Run V C (List InstalledPackage)} (listed r) (err out_of_fuel)
  listed-fuel (ok pkgs) out = cc
  listed-fuel (err e) out = cc

module _ {V C : Type 0} (lib : Semver V C) where
  error_to_conflict-fuel :
      (e : DependencyError V C) (c : Cause V C)
      → e.cause ≡ c
      → error_to_conflict lib e ≢ err out_of_fuel
  unfolding error_to_conflict
  error_to_conflict-fuel e (not_installed pkg) is_c out = cc (rw is_c at out)
  error_to_conflict-fuel e (constraint_error pkg v c cause) is_c out = cc (rw is_c at out)

  new_conflicts-fuel :
      (before es : List (DependencyError V C)) → new_conflicts lib before es ≢ err out_of_fuel
  unfolding new_conflicts
  new_conflicts-fuel before [] = λ out. cc
  new_conflicts-fuel before (e ∷ es) = elim (Bool-cases (is_err_new e before)) [
    | inr old ↦ rw old (new_conflicts-fuel before es)
    | inl new ↦ rw new (
        bind-fuel (error_to_conflict lib e) _ (error_to_conflict-fuel e e.cause refl) λ c is_c.
          bind-fuel (new_conflicts lib before es) _ (new_conflicts-fuel before es)
            λ cs is_cs out. cc)
  ]

  module _ (client : PackageClient) (repo : RepoAdapter) where
    installed_manifest-fuel :
        (pkg : InstalledPackage) → installed_manifest lib client repo pkg ≢ err out_of_fuel
    unfolding installed_manifest
    installed_manifest-fuel pkg =
        if_both (λ (r : Run V C PackageManifest). r ≢ err out_of_fuel) pkg.is_deleting (λ out. cc)
          (λ out. checked-err (get_manifest_for_installed_pkg lib client repo pkg) out refl)

    add_all_installed-fuel :
        (g : Graph V C) (pkgs : List InstalledPackage)
        → add_all_installed lib client repo g pkgs ≢ err out_of_fuel
    unfolding add_all_installed
    add_all_installed-fuel g [] = λ out. cc
    add_all_installed-fuel g (pkg ∷ pkgs) =
        bind-fuel (installed_manifest lib client repo pkg) _ (installed_manifest-fuel pkg)
          λ manifest is_manifest.
            bind-fuel (added (add_installed lib client repo g pkg manifest)) _ (added-fuel _)
              λ h is_h. add_all_installed-fuel h pkgs

    new_graph-fuel : new_graph lib client repo ≢ err out_of_fuel
    unfolding new_graph
    new_graph-fuel =
        bind-fuel (listed client.list_cluster_packages) _ (listed-fuel client.list_cluster_packages)
          λ cluster is_cluster.
            bind-fuel (listed client.list_packages) _ (listed-fuel client.list_packages)
              λ namespaced is_namespaced. add_all_installed-fuel _ (cluster ++ namespaced)

-- The package to be installed and what its manifest declares are of the list.
abbrev root_of : String → String → PackageManifest → VertexRef
root_of name namespace manifest =
    if str_eq namespace "" then ref_of manifest.name "" else ref_of name namespace

abbrev IsListed : List PackageRef → VertexRef → PackageManifest → Type 0
IsListed packages ref manifest =
    IsIn (package_ref ref manifest.name) packages
    × ((t : Target) → IsIn t (targets ref manifest) → IsIn (package_ref t.to t.name) packages)

module _ {V C : Type 0} (lib : Semver V C) (client : PackageClient) (repo : RepoAdapter)
    (sort : List Requirement → List Requirement) (packages : List PackageRef)
    (originals : (s : String) (v : V) → lib.new_version s ≡ ok v → lib.original v ≢ "")
    (closed : IsClosed repo packages) (name namespace : String) (manifest : PackageManifest)
    (version : String) (root : IsListed packages (root_of name namespace manifest) manifest)
    (fuel : ℕ) (enough : length packages < fuel) where
  root-IsCovered :
      (g : Graph V C)
      → IsCovered packages g
      → IsCovered packages (add lib repo g name namespace manifest version).0
  unfolding add add_cluster add_namespaced
  root-IsCovered g covered = elim (Bool-cases (str_eq namespace "")) [
    | inl cluster ↦
        let (listed, declares) = rw cluster at root in
        rw (cluster, add)
          (add-IsCovered packages lib g (ref_of manifest.name "") manifest version
            (manual g manifest.name "") listed declares covered)
    | inr namespaced ↦
        let (listed, declares) = rw namespaced at root in
        rw (namespaced, add)
          (add-IsCovered packages lib g (ref_of name namespace) manifest version
            (manual g manifest.name "") listed declares covered)
  ]

  plan-fuel :
      (g : Graph V C)
      → IsTame lib repo packages g
      → plan lib client repo sort fuel g name namespace manifest version ≢ err out_of_fuel
  unfolding plan
  plan-fuel g (wf, covered) =
      let root_added = add lib repo g name namespace manifest version in
      bind-fuel (added root_added) _ (added-fuel root_added) λ h is_h.
        let same = (added-ok root_added h is_h).0 in
        let tame : IsTame lib repo packages h = subst (IsTame lib repo packages) same (
          manager_add-IsWellFormed lib repo g name namespace manifest version wf,
          root-IsCovered g covered,
        ) in
        let few = missing-length h packages in
        Ends-fuel lib repo packages h (add_dependencies lib repo fuel h name namespace false) (
          add_dependencies-Ends lib repo packages originals closed fuel h name namespace false tame
            (omega arith))

  -- Where the packages of the graph that NewGraph returns, the package with what its manifest declares,
  -- and what the repository answers for any of these are all in one list, manifests and cluster
  -- packages have the names of their packages, and no parsed version is empty, Validate does not run
  -- out of fuel above the length of the list.
  pub validate_package_ends :
      ((g : Graph V C) → new_graph lib client repo ≡ ok g → IsCovered packages g)
      → validate_package lib client repo sort fuel name namespace (some manifest) version
        ≢ err out_of_fuel
  unfolding validate_package verdict
  validate_package_ends covered =
      bind-fuel (new_graph lib client repo) _ (new_graph-fuel lib client repo) λ g is_g.
        let wf =
          Returns-ok IsWellFormed (new_graph lib client repo) g
            (new_graph-IsWellFormed lib client repo) is_g in
        bind-fuel (plan lib client repo sort fuel g name namespace manifest version) _
          (plan-fuel g (wf, covered g is_g))
          λ (h, requirements) is_h.
            bind-fuel (new_conflicts lib (validate lib g) (validate lib h)) _
              (new_conflicts-fuel lib (validate lib g) (validate lib h))
              λ conflicts is_conflicts out. cc
