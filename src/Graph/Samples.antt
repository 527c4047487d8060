-- ===== src/Graph/Samples.antt =====
-- A small cluster, and what the code does on it.
use glasskube.Base.{ℕ, String, ◌≡◌, refl, Bool, true, false, none, some, List, [], ◌∷◌}
use glasskube.Assoc.{get, put, keys, collect, contains}
use glasskube.Semver.{validate_version_constraint, is_version_upgradable}
use glasskube.Semver.Samples.{Release, release, releases}
use glasskube.Manifest.{empty_manifest, Dependency, Component, PackageManifest}
use glasskube.Graph.Types.{PackageRef, VertexRef, ref_key, Edge, Vertex, Graph, not_installed}
use glasskube.Graph.VertexMap.{vertex_at, delete_vertex, empty_graph}
use glasskube.Graph.Queries.{ref_of, dependants, dependencies, max}
use glasskube.Graph.Validate.{validate}
use glasskube.Graph.WellFormed.{IsWellFormed, empty-IsWellFormed}
use glasskube.Graph.Add.Contract.{add-IsWellFormed}
use glasskube.Graph.Changes.{
  add, add_cluster, add_namespaced, parse_constraint, prune, prune_visit, prune_round,
  delete_and_prune, validate_delete,
}

abbrev pub manifest : String → List Dependency → List Component → PackageManifest
manifest name dependencies components = record empty_manifest {
  name = name;
  default_namespace = "apps";
  dependencies = dependencies;
  components = components;
}

abbrev pub needs : String → String → Dependency
needs name version = record { name = name; version = version }

-- `shop` needs `db` and has a component `cache`; `db` needs `disk`.
abbrev pub shop : PackageManifest
shop =
    manifest "shop" (needs "db" ">=2" ∷ [])
      (record { name = "cache"; installed_name = ""; version = ""; values = [] } ∷ [])

abbrev pub db : PackageManifest
db = manifest "db" (needs "disk" "" ∷ []) []

abbrev pub disk : PackageManifest
disk = manifest "disk" [] []

abbrev pub cache : PackageManifest
cache = manifest "cache" [] []

-- The graph without the component of `shop`, which is not installed yet.
pub incomplete : Graph Release ℕ
unfolding add_cluster add
incomplete =
    let g1 = (add_cluster releases empty_graph shop "2" true).0 in
    let g2 = (add_cluster releases g1 db "2" false).0 in (add_cluster releases g2 disk "1" false).0

pub cluster : Graph Release ℕ
unfolding add_namespaced incomplete
cluster = (add_namespaced releases incomplete "shop-cache" "apps" cache "1" false).0

abbrev pub order : ℕ → List VertexRef
order n = ref_of "disk" "" ∷ ref_of "db" "" ∷ ref_of "shop" "" ∷ ref_of "shop-cache" "apps" ∷ []

abbrev pub reversed : ℕ → List VertexRef
reversed n = ref_of "shop-cache" "apps" ∷ ref_of "shop" "" ∷ ref_of "db" "" ∷ ref_of "disk" "" ∷ []

unfoldable pub program : Unit {0}
unfolding cluster vertex_at get put keys collect contains dependants dependencies validate
    delete_vertex prune prune_visit prune_round delete_and_prune validate_delete max
    parse_constraint validate_version_constraint is_version_upgradable
program = tt

abbrev pub named : String → String → String → PackageRef
named name namespace package_name = record {
  name = name;
  namespace = namespace;
  package_name = package_name;
}

validate-incomplete :
    validate releases incomplete
    ≡ record {
      pkg = named "shop" "" "shop";
      dep = named "shop-cache" "apps" "cache";
      cause = not_installed (named "shop-cache" "apps" "cache");
    }
      ∷ []
unfolding program
validate-incomplete = refl

validate-cluster : validate releases cluster ≡ []
unfolding program
validate-cluster = refl

abbrev at : String → Release → Bool → List (VertexRef × Edge ℕ) → VertexRef × Vertex Release ℕ
at name version manual edges = (
  ref_of name "",
  record { package_name = name; version = some version; manual = manual; edges = edges },
)

abbrev gone : String → VertexRef × Vertex Release ℕ
gone name =
    (ref_of name "", record { package_name = name; version = none; manual = false; edges = [] })

abbrev disk_edge : List (VertexRef × Edge ℕ)
disk_edge = (ref_of "disk" "", record { constraint = none; vertex = ref_of "disk" "" }) ∷ []

-- `db` and its dependency `disk`, which nothing needs.
abbrev pub orphans : Graph Release ℕ
orphans = record {
  vertices =
      at "db" (release 2 "" "2") false disk_edge ∷ at "disk" (release 1 "" "1") false [] ∷ [];
}

abbrev pub bare : Graph Release ℕ
bare = record { vertices = gone "db" ∷ gone "disk" ∷ [] }

abbrev pub removed_both : List PackageRef
removed_both = named "db" "" "db" ∷ named "disk" "" "disk" ∷ []

orphans_lem :
    (add_cluster releases (add_cluster releases empty_graph db "2" false).0 disk "1" false).0
    ≡ orphans
unfolding program add_cluster add
orphans_lem = refl

pub orphans-IsWellFormed : IsWellFormed orphans
unfolding add_cluster
orphans-IsWellFormed = rw orphans_lem at (
    add-IsWellFormed releases _ (ref_of "disk" "") disk "1" false
      (add-IsWellFormed releases empty_graph (ref_of "db" "") db "2" false empty-IsWellFormed))

-- The first round visits the disk too early.
pub prune-orphans : prune order orphans ≡ some (bare, removed_both)
unfolding program
prune-orphans = refl

pub prune-reversed : prune reversed orphans ≡ some (bare, removed_both)
unfolding program
prune-reversed = refl
