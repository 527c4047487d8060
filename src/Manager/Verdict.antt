-- ===== src/Manager/Verdict.antt =====
-- Validate of internal/dependency/manager.go: requirements and conflicts of an installation.
use glasskube.Base.{
  ℕ, String, Bool, true, false, not, ◌&&◌, Option, none, some, List, [], ◌∷◌, str_eq, ok, err,
  ◌>>=◌, if◌then◌else◌, is_empty,
}
use glasskube.Semver.{Semver}
use glasskube.Manifest.{PackageManifest}
use glasskube.Graph.Types.{PackageRef, Graph, DependencyError, not_installed, constraint_error}
use glasskube.Graph.Validate.{validate}
use glasskube.Manager.Types.{
  failed, fault, unmet, Run, RepoAdapter, PackageClient, Requirement, Conflict, status_ok,
  status_resolvable, status_conflict, ValidationResult,
}
use glasskube.Manager.Installed.{new_graph, added}
use glasskube.Manager.Resolve.{Resolved, add, add_dependencies}

unfoldable pub same_package : PackageRef → PackageRef → Bool
same_package a b =
    str_eq a.name b.name && (str_eq a.namespace b.namespace && str_eq a.package_name b.package_name)

-- isErrNew, on the errors of a graph, which are all of type DependencyError.
unfoldable pub is_err_new : {V C : Type 0} → DependencyError V C → List (DependencyError V C) → Bool
unfolding same_package
is_err_new current [] = true
is_err_new current (before ∷ rest) =
    if same_package before.pkg current.pkg && same_package before.dep current.dep
    then false
    else is_err_new current rest

module _ {V C : Type 0} (lib : Semver V C) where
  -- errorToConflict
  unfoldable pub error_to_conflict : DependencyError V C → Run V C (Conflict V C)
  error_to_conflict e = elim e.cause [
    | not_installed pkg ↦ err (unmet e)
    | constraint_error pkg version constraint cause ↦ ok (record {
      actual = record { name = pkg.name; version = lib.original version };
      required = record { name = pkg.name; version = lib.constraint_string constraint };
      cause = e;
    })
  ]

  -- The loop over the errors after the change.
  unfoldable pub new_conflicts :
      List (DependencyError V C) → List (DependencyError V C) → Run V C (List (Conflict V C))
  unfolding is_err_new error_to_conflict
  new_conflicts before [] = ok []
  new_conflicts before (e ∷ es) =
      let rest = new_conflicts before es in
      if is_err_new e before
      then (error_to_conflict e >>= λ c. rest >>= λ cs. ok (c ∷ cs))
      else rest

  abbrev pub result : List Requirement → List (Conflict V C) → ValidationResult V C
  result requirements conflicts = record {
    status =
        if not (is_empty conflicts)
        then status_conflict
        else if not (is_empty requirements)
        then status_resolvable
        else status_ok;
    requirements = requirements;
    conflicts = conflicts;
  }

  module _ (client : PackageClient) (repo : RepoAdapter)
      (sort : List Requirement → List Requirement) where
    -- The changes that Validate makes to its graph.
    unfoldable pub plan : ℕ → Graph V C → String → String → PackageManifest → String → Resolved V C
    unfolding add add_dependencies
    plan fuel g name namespace manifest version =
        added (add lib repo g name namespace manifest version) >>= λ h.
        add_dependencies lib repo fuel h name namespace false

    unfoldable pub verdict :
        Graph V C → List Requirement → Graph V C → Run V C (ValidationResult V C)
    unfolding validate new_conflicts
    verdict before requirements after =
        new_conflicts (validate lib before) (validate lib after) >>= λ conflicts.
        ok (result (sort requirements) conflicts)

    -- Validate. `sort` is slices.SortFunc by the names.
    unfoldable pub validate_package :
        ℕ → String → String → Option PackageManifest → String → Run V C (ValidationResult V C)
    unfolding new_graph plan verdict
    validate_package fuel name namespace none version =
        err (failed (fault "manifest must not be nil"))
    validate_package fuel name namespace (some manifest) version =
        new_graph lib client repo >>= λ g.
        plan fuel g name namespace manifest version >>= λ (h, requirements).
        verdict g requirements h
