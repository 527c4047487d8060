-- ===== src/Manager/Resolve.antt =====
-- addDependencies of internal/dependency/manager.go: the highest versions of what is missing.
use glasskube.Base.{
  ℕ, zero, suc, String, Bool, true, false, Option, none, some, List, [], ◌∷◌, ◌++◌, str_eq, Result,
  ok, err, ◌>>=◌, if◌then◌else◌, is_some,
}
use glasskube.Semver.{Semver}
use glasskube.Manifest.{PackageManifest}
use glasskube.Graph.Types.{PackageRef, Graph}
use glasskube.Graph.Queries.{ref_of, manual, version, dependencies, max}
use glasskube.Graph.Changes.{Outcome, add_cluster, add_namespaced}
use glasskube.Manager.Types.{
  Call, returned, panicked, panic, Faults, is_complete, failed, out_of_fuel, Run, checked,
  RepoAdapter, Requirement,
}
use glasskube.Manager.Installed.{added}

abbrev pub Resolved : Type 0 → Type 0 → Type 0
Resolved V C = Run V C (Graph V C × List Requirement)

module _ {V C : Type 0} (lib : Semver V C) (repo : RepoAdapter) where
  unfoldable pub parse_versions : List String → Result String (List V)
  parse_versions [] = ok []
  parse_versions (s ∷ ss) = lib.new_version s >>= λ v. parse_versions ss >>= λ vs. ok (v ∷ vs)

  unfoldable pub parsed : Faults → Result String (List V) → Call (List V)
  parsed repo_err (err e) = returned [] (record { is_partial = false; message = e } ∷ repo_err)
  parsed repo_err (ok versions) = returned versions repo_err

  -- getVersions
  unfoldable pub get_versions : String → Call (List V)
  unfolding parse_versions parsed
  get_versions name = elim (repo.get_versions name) [
    | panicked ↦ panicked
    | returned versions repo_err ↦ parsed repo_err (parse_versions versions)
  ]

  -- DependendcyManager.add
  unfoldable pub add : Graph V C → String → String → PackageManifest → String → Outcome V C
  unfolding manual add_cluster add_namespaced
  add g name namespace manifest of_version =
      if str_eq namespace ""
      then add_cluster lib g manifest of_version (manual g manifest.name "")
      else add_namespaced lib g name namespace manifest of_version (manual g manifest.name "")

  abbrev requirement : PackageRef → Bool → PackageManifest → String → Requirement
  requirement dep transitive manifest of_version = record {
    package_with_version = record { name = manifest.name; version = of_version };
    component_metadata =
        if str_eq dep.namespace ""
        then none
        else some (record { name = dep.name; namespace = dep.namespace });
    transitive = transitive;
  }

  -- The cases of one round once a version is chosen; `recurse` is the call of addDependencies.
  unfoldable pub install :
      (Graph V C → PackageRef → Resolved V C) → Bool → Graph V C → PackageRef → V → Resolved V C
  unfolding add checked
  install recurse transitive g dep v =
      checked (repo.get_manifest dep.package_name (lib.original v)) >>= λ manifest.
      added (add g dep.name dep.namespace manifest (lib.original v)) >>= λ h.
      recurse h dep >>= λ (s, more).
      ok (s, requirement dep transitive manifest (lib.original v) ∷ more)

  unfoldable pub install_max :
      (Graph V C → PackageRef → Resolved V C)
      → Bool
      → Graph V C
      → PackageRef
      → Option V
      → Resolved V C
  unfolding install
  install_max recurse transitive g dep none = ok (g, [])
  install_max recurse transitive g dep (some v) = install recurse transitive g dep v

  -- The rest of a round, once getVersions has been called.
  unfoldable pub with_versions :
      (Graph V C → PackageRef → Resolved V C)
      → Bool
      → Graph V C
      → PackageRef
      → Call (List V)
      → Resolved V C
  unfolding is_complete max install_max
  with_versions recurse transitive g dep panicked = err panic
  with_versions recurse transitive g dep (returned versions errs) =
      if is_complete errs
      then err (failed errs)
      else install_max recurse transitive g dep (max lib g (ref_of dep.name dep.namespace) versions)

  -- One round of the loop.
  unfoldable pub add_dependency :
      (Graph V C → PackageRef → Resolved V C) → Bool → Graph V C → PackageRef → Resolved V C
  unfolding version get_versions with_versions
  add_dependency recurse transitive g dep =
      if is_some (version g dep.name dep.namespace)
      then ok (g, [])
      else with_versions recurse transitive g dep (get_versions dep.package_name)

  unfoldable pub add_each :
      (Graph V C → PackageRef → Resolved V C) → Bool → Graph V C → List PackageRef → Resolved V C
  unfolding add_dependency
  add_each recurse transitive g [] = ok (g, [])
  add_each recurse transitive g (dep ∷ deps) =
      add_dependency recurse transitive g dep >>= λ (h, reqs).
      add_each recurse transitive h deps >>= λ (s, more). ok (s, reqs ++ more)

  -- addDependencies; the fuel bounds the depth of the recursion.
  unfoldable pub add_dependencies : ℕ → Graph V C → String → String → Bool → Resolved V C
  unfolding add_each dependencies
  add_dependencies zero g name namespace transitive = err out_of_fuel
  add_dependencies (suc fuel) g name namespace transitive =
      add_each (λ h (dep : PackageRef). add_dependencies fuel h dep.name dep.namespace true)
        transitive g (dependencies g name namespace)
