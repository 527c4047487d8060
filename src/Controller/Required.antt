-- ===== src/Controller/Required.antt =====
-- The required packages of a package: the creation of those that are missing, and the check of those
-- that are there, parts of ensureDependencies of internal/controller/common.go.
use glasskube.Base.{
  ℕ, String, Bool, true, false, not, Option, none, some, List, [], ◌∷◌, ◌++◌, str_eq, Result, ok,
  err, if◌then◌else◌,
}
use glasskube.Assoc.{string_key}
use glasskube.Semver.{Semver}
use glasskube.Manifest.{Component, ComponentValues, PackageManifest, Dependency}
use glasskube.Graph.Changes.{component_name}
use glasskube.Manager.Types.{PackageClient, Requirement, Conflict, Stop}
use glasskube.Values.Resolver.{Values}
use glasskube.Repo.Types.{RepoClients, PackageRepository}
use glasskube.Repo.Meta.{get_repos_for_package}
use glasskube.Owners.OwnedResources.{OwnedResourceRef}
use glasskube.Controller.Conditions.{ConditionApi, ready, failed}
use glasskube.Controller.Types.{
  ReconciledPackage, RequiredPackage, found, not_found, get_failed, Api,
}

-- The version library, the clients and the sort of the dependency manager with its fuel, texts of
-- errors, ToOwnedResourceRef, and reflect.DeepEqual of some values with those of a package.
pub record DependencyEnv (W S V C : Type 0) : Type 0 where
  pub lib : Semver V C
  pub clients : RepoClients
  pub package_client : W → PackageClient
  pub sort : List Requirement → List Requirement
  pub fuel : ℕ
  pub not_validated : Stop V C → String
  pub conflicting : List (Conflict V C) → String
  pub owned_ref : ReconciledPackage S → Option OwnedResourceRef
  pub same_values : Option Values → ReconciledPackage S → Bool

-- ComponentValues.AsPackageValues
unfoldable pub as_package_values : ComponentValues → Values
as_package_values [] = []
as_package_values ((name, v) ∷ rest) =
    (name, record { value = v.value; value_from = none }) ∷ as_package_values rest

-- The values of the last component of the name.
unfoldable pub component_values : List Component → String → Option Values → Option Values
unfolding as_package_values
component_values [] name values = values
component_values (cmp ∷ cmps) name values =
    component_values cmps name
      (if str_eq cmp.name name then some (as_package_values cmp.values) else values)

-- `newPkg`, with what the callback of CreateOrUpdate writes.
unfoldable pub new_package : PackageManifest → Requirement → PackageRepository → RequiredPackage
unfolding component_values
new_package m r repo =
    let template = r.package_with_version in
    elim r.component_metadata [
      | some cmp ↦ record {
        is_namespace_scoped = true;
        name = cmp.name;
        namespace = cmp.namespace;
        package_info = record {
          name = template.name;
          version = template.version;
          repository_name = repo.name;
        };
        values = component_values m.components template.name none;
      }
      | none ↦ record {
        is_namespace_scoped = false;
        name = template.name;
        namespace = "";
        package_info = record {
          name = template.name;
          version = template.version;
          repository_name = repo.name;
        };
        values = none;
      }
    ]

module _ {W S V C : Type 0} (api : Api W S) (deps : DependencyEnv W S V C) where
  abbrev with_failure : String → W × Option String → List String → W × List String
  with_failure name (w, none) failed_names = (w, failed_names)
  with_failure name (w, some e) failed_names = (w, failed_names ++ name ∷ [])

  -- A requirement is created or updated if exactly one repository has it.
  unfoldable pub create_from :
      PackageManifest → Requirement → List PackageRepository → W → List String → W × List String
  unfolding new_package
  create_from m r [] w failed_names = (w, failed_names ++ r.package_with_version.name ∷ [])
  create_from m r (repo ∷ []) w failed_names =
      with_failure r.package_with_version.name
        (api.create_or_update_package w (new_package m r repo)) failed_names
  create_from m r (repo ∷ other ∷ repos) w failed_names =
      (w, failed_names ++ r.package_with_version.name ∷ [])

  -- The loop over the requirements: the API server, and the names of those that could not be created.
  unfoldable pub create_required :
      PackageManifest → List Requirement → W → List String → W × List String
  unfolding create_from get_repos_for_package
  create_required m [] w failed_names = (w, failed_names)
  create_required m (r ∷ rs) w failed_names =
      let (w', failed_names') =
        if r.transitive
        then (w, failed_names)
        else create_from m r (get_repos_for_package deps.clients r.package_with_version.name).0 w
            failed_names in
      create_required m rs w' failed_names'

-- The variables that handleRequiredPackage writes.
pub record Required (W : Type 0) : Type 0 where
  pub world : W
  pub owned_packages : List OwnedResourceRef
  pub waiting_for : List String
  pub failed_names : List String

-- A required package: whether it is a Package, its name and namespace, and the values of a component.
pub record Wanted : Type 0 where
  pub is_namespace_scoped : Bool
  pub name : String
  pub namespace : String
  pub values : Option Values

module _ {W S V C : Type 0} (api : Api W S) (conditions : ConditionApi S)
    (deps : DependencyEnv W S V C) where
  abbrev pub owning : String → Option OwnedResourceRef → Required W → Required W
  owning name none s = record s { failed_names = s.failed_names ++ name ∷ [] }
  owning name (some ref) s = record s { owned_packages = s.owned_packages ++ ref ∷ [] }

  -- The condition that the package has.
  unfoldable pub judge : String → ReconciledPackage S → Required W → Required W
  judge name p s =
      if conditions.is_status_condition_true p.conditions failed
      then record s { failed_names = s.failed_names ++ name ∷ [] }
      else if not (conditions.is_status_condition_true p.conditions ready)
      then record s { waiting_for = s.waiting_for ++ name ∷ [] }
      else s

  abbrev pub after_update :
      String
      → ReconciledPackage S
      → W × Result String (ReconciledPackage S)
      → Required W
      → Required W
  after_update name p (w, ok p') s = judge name p' (record s { world = w })
  after_update name p (w, err e) s =
      judge name p (record s { world = w; failed_names = s.failed_names ++ name ∷ [] })

  unfoldable pub handle_found : Wanted → ReconciledPackage S → Required W → Required W
  unfolding judge
  handle_found wanted p s =
      let s' = owning wanted.name (deps.owned_ref p) s in
      if not (deps.same_values wanted.values p)
      then after_update wanted.name p (api.update_values s'.world p wanted.values) s'
      else judge wanted.name p s'

  -- handleRequiredPackage
  unfoldable pub handle_required_package : Wanted → Required W → Result String (Required W)
  unfolding handle_found
  handle_required_package wanted s =
      elim (api.get_package s.world wanted.is_namespace_scoped wanted.name wanted.namespace) [
        | not_found ↦ ok (record s { waiting_for = s.waiting_for ++ wanted.name ∷ [] })
        | get_failed e ↦ err e
        | found p ↦ ok (handle_found wanted p s)
      ]

  -- An error, and what the API server had become by then.
  unfoldable pub handle_all : List Wanted → Required W → Required W × Option String
  unfolding handle_required_package
  handle_all [] s = (s, none)
  handle_all (wanted ∷ more) s = elim (handle_required_package wanted s) [
    | err e ↦ (s, some e)
    | ok s' ↦ handle_all more s'
  ]

  -- The dependencies, which are cluster packages, and the components.
  unfoldable pub wanted_dependencies : List Dependency → List Wanted
  wanted_dependencies [] = []
  wanted_dependencies (d ∷ ds) =
      record { is_namespace_scoped = false; name = d.name; namespace = ""; values = none }
      ∷ wanted_dependencies ds

  unfoldable pub wanted_components :
      ReconciledPackage S → PackageManifest → List Component → List Wanted
  unfolding component_name as_package_values
  wanted_components pkg m [] = []
  wanted_components pkg m (cmp ∷ cmps) =
      record {
        is_namespace_scoped = true;
        name = component_name pkg.name cmp;
        namespace = if str_eq pkg.namespace "" then m.default_namespace else pkg.namespace;
        values = some (as_package_values cmp.values);
      }
      ∷ wanted_components pkg m cmps
