-- ===== src/Webhook/Validator.antt =====
-- PackageValidatingWebhook of internal/webhook/package_validator.go. The repository client and
-- reflect.DeepEqual are parameters.
use glasskube.Base.{
  ℕ, Bool, not, ◌&&◌, Option, none, some, List, Result, ok, err, ◌>>=◌, if◌then◌else◌, is_empty,
}
use glasskube.Semver.{Semver}
use glasskube.Manifest.{PackageManifest, is_cluster, is_namespaced}
use glasskube.Graph.Types.{PackageRef, VertexRef, Graph, DependencyError}
use glasskube.Graph.Changes.{validate_delete as graph_validate_delete}
use glasskube.Values.Validate.{Regexp, ValidationError}
use glasskube.Values.Resolver.{Values, validate_package as validate_values}
use glasskube.Manager.Types.{
  Faults, Stop, out_of_fuel, Run, RepoAdapter, InstalledPackage, PackageClient, Requirement,
  Conflict, ValidationResult,
}
use glasskube.Manager.Installed.{new_graph}
use glasskube.Manager.Verdict.{validate_package as validate_dependencies}

-- A Package or ClusterPackage as the webhook receives it.
pub record Candidate : Type 0 where
  pub package_of : InstalledPackage
  pub values : Values

-- runtime.Object, with the type assertion to ctrlpkg.Package.
pub data Object : Type 0 where
  package_object : Candidate → Object
  other_object : Object

-- The errors with which the webhook rejects.
pub data Rejection (V C : Type 0) : Type 0 where
  fetch_error : Faults → Rejection V C
  expected_cluster_package expected_package invalid_object : Rejection V C
  invalid_values : List ValidationError → Rejection V C
  manager_error : Stop V C → Rejection V C
  conflict_error : List (Conflict V C) → Rejection V C
  conflict_error_delete : List (DependencyError V C) → Rejection V C

abbrev pub Admission : Type 0 → Type 0 → Type 0
Admission V C = Result (Rejection V C) (Unit {0})

module _ {V C : Type 0} where
  -- The scope validation.
  unfoldable pub check_scope : PackageManifest → InstalledPackage → Admission V C
  check_scope manifest pkg =
      if is_cluster manifest.scope && pkg.is_namespace_scoped
      then err expected_cluster_package
      else if is_namespaced manifest.scope && not pkg.is_namespace_scoped
      then err expected_package
      else ok tt

  unfoldable pub check_values : List ValidationError → Admission V C
  check_values errs = if is_empty errs then ok tt else err (invalid_values errs)

  unfoldable pub check_result : Run V C (ValidationResult V C) → Admission V C
  check_result (err stop) = err (manager_error stop)
  check_result (ok result) =
      if is_empty result.conflicts then ok tt else err (conflict_error result.conflicts)

  abbrev fetched : Result Faults PackageManifest → Result (Rejection V C) PackageManifest
  fetched (ok manifest) = ok manifest
  fetched (err errs) = err (fetch_error errs)

  abbrev check_deletion : Option (List PackageRef × List (DependencyError V C)) → Admission V C
  check_deletion none = err (manager_error out_of_fuel)
  check_deletion (some (removed, errs)) =
      if is_empty errs then ok tt else err (conflict_error_delete errs)

module _ {V C R : Type 0} (lib : Semver V C) (re : Regexp R) (client : PackageClient)
    (repo : RepoAdapter) (sort : List Requirement → List Requirement)
    (fetch : InstalledPackage → Result Faults PackageManifest) (fuel : ℕ) where
  -- validateCreateOrUpdate
  unfoldable pub validate_create_or_update : Candidate → Admission V C
  unfolding check_scope check_values check_result
  validate_create_or_update c = fetched (fetch c.package_of) >>= λ manifest.
      check_scope manifest c.package_of >>= λ scoped.
      check_values (validate_values re manifest c.values) >>= λ valid. check_result (
        validate_dependencies lib client repo sort fuel c.package_of.name c.package_of.namespace
          (some manifest) c.package_of.version)

  -- ValidateCreate
  unfoldable pub validate_create : Object → Admission V C
  unfolding validate_create_or_update
  validate_create other_object = err invalid_object
  validate_create (package_object c) = validate_create_or_update c

  -- ValidateUpdate; `deep_equal` compares the two specs.
  unfoldable pub validate_update : (Candidate → Candidate → Bool) → Object → Object → Admission V C
  unfolding validate_create_or_update
  validate_update deep_equal other_object new = err invalid_object
  validate_update deep_equal (package_object old) other_object = err invalid_object
  validate_update deep_equal (package_object old) (package_object new) =
      if deep_equal old new then ok tt else validate_create_or_update new

  deletion :
      (Graph V C → ℕ → List VertexRef) → InstalledPackage → Run V C (Graph V C) → Admission V C
  deletion order pkg (err stop) = err (manager_error stop)
  deletion order pkg (ok g) =
      if pkg.is_namespace_scoped
      then ok tt
      else check_deletion (graph_validate_delete lib (order g) g pkg.name pkg.namespace)

  -- ValidateDelete; `order` is the order in which Prune visits the vertices of a graph.
  unfoldable pub validate_delete : (Graph V C → ℕ → List VertexRef) → Object → Admission V C
  unfolding deletion new_graph
  validate_delete order other_object = err invalid_object
  validate_delete order (package_object c) = deletion order c.package_of (new_graph lib client repo)
