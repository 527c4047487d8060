-- ===== src/Manager/Samples.antt =====
-- The installation of `shop` into an empty cluster.
use glasskube.Base.{
  ℕ, String, ◌≡◌, ◌≢◌, refl, Bool, true, false, Option, none, some, List, [], ◌∷◌, ok, str_eq,
  if◌then◌else◌,
}
use glasskube.Semver.Samples.{Release, releases}
use glasskube.Manifest.{PackageManifest}
use glasskube.Graph.Types.{Graph}
use glasskube.Graph.Queries.{ref_of}
use glasskube.Graph.Samples.{shop, db, disk, cache, program}
use glasskube.Manager.Types.{
  Call, returned, fault, RepoAdapter, PackageClient, not_found, Requirement, ValidationResult,
  status_resolvable, status_conflict, checked,
}
use glasskube.Manager.Installed.{new_graph}
use glasskube.Manager.Verdict.{plan, validate_package, new_conflicts}
use glasskube.Manager.Sound.{IsSafe, validate_package-IsSafe}

abbrev pub manifest_of : String → Call (Option PackageManifest)
manifest_of name =
    if str_eq name "db"
    then returned (some db) []
    else if str_eq name "disk"
    then returned (some disk) []
    else if str_eq name "cache"
    then returned (some cache) []
    else returned none (fault "not found")

abbrev pub repo : RepoAdapter
repo = record {
  get_versions = λ name. returned ("1" ∷ "2" ∷ "1+3" ∷ []) [];
  get_manifest = λ name version. manifest_of name;
  get_manifest_from_repo = λ name version repository_name. manifest_of name;
}

abbrev pub client : PackageClient
client = record {
  list_cluster_packages = ok [];
  list_packages = ok [];
  get_package_info = λ pkg. not_found;
}

abbrev pub unsorted : List Requirement → List Requirement
unsorted rs = rs

abbrev needed : String → Bool → Requirement
needed name transitive = record {
  package_with_version = record { name = name; version = "2" };
  component_metadata = none;
  transitive = transitive;
}

abbrev pub verdict : ValidationResult Release ℕ
verdict = record {
  status = status_resolvable;
  requirements =
      needed "db" false
      ∷ needed "disk" true
      ∷ record (needed "cache" false) {
        component_metadata = some (record { name = "shop-cache"; namespace = "apps" });
      }
      ∷ [];
  conflicts = [];
}

shop_is_safe :
    validate_package releases client repo unsorted 3 "shop" "" (some shop) "2" ≡ ok verdict
unfolding validate_package program new_conflicts checked
shop_is_safe = refl

resolvable : verdict.status ≢ status_conflict
resolvable e = cc

validate_package-IsSafe_example :
    (before after : Graph Release ℕ) × (requirements : List Requirement) × (new_graph releases
        client repo
      ≡ ok before)
    × (plan releases client repo unsorted 3 before "shop" "" shop "2" ≡ ok (after, requirements))
    × (verdict.requirements ≡ unsorted requirements)
    × IsSafe releases before after (ref_of "shop" "")
validate_package-IsSafe_example =
    validate_package-IsSafe releases client repo unsorted 3 "shop" "" shop "2" verdict shop_is_safe
      resolvable
