-- ===== src/Graph/Witnesses.antt =====
-- The theorems about the graph, applied to the small cluster of `Samples`.
use glasskube.Base.{
  ℕ, String, ◌≡◌, ◌≢◌, ◌↔◌, refl, true, false, not, ◌&&◌, ◌⊎◌, some, none, List, [], ◌∷◌, arith,
  IsIn, ok, inl,
}
use glasskube.Assoc.{get, contains}
use glasskube.Semver.{is_version_upgradable}
use glasskube.Semver.Samples.{Release, release, releases, releases-IsLawful}
use glasskube.Graph.Types.{PackageRef, VertexRef, ref_key, Edge, Graph}
use glasskube.Graph.VertexMap.{vertex_at, empty_graph}
use glasskube.Graph.Lookup.{installed_at, or_new}
use glasskube.Graph.Queries.{ref_of, max}
use glasskube.Graph.WellFormed.{IsWellFormed, empty-IsWellFormed}
use glasskube.Graph.Validate.{validate}
use glasskube.Graph.Consistency.{IsConsistent, validate_iff}
use glasskube.Graph.Changes.{add, prune}
use glasskube.Graph.Add.{targets, declared}
use glasskube.Graph.Add.Contract.{add-IsWellFormed, add_installs}
use glasskube.Graph.Max.{IsAllowed, max-best}
use glasskube.Graph.Prune.{IsKept}
use glasskube.Graph.Prune.Result.{lists, IsUninstalled}
use glasskube.Graph.Prune.Outcome.{
  Covers, prune_total, prune_settled, prune_fate, prune-IsConsistent, prune_confluent,
}
use glasskube.Graph.Samples.{
  shop, cluster, program, order, reversed, orphans, orphans-IsWellFormed, bare, removed_both,
  prune-orphans, prune-reversed,
}

validate_iff_example : (validate releases cluster ≡ []) ↔ IsConsistent releases cluster
validate_iff_example = validate_iff releases cluster

add-IsWellFormed_example :
    IsWellFormed (add releases empty_graph (ref_of "shop" "") shop "2" true).0
add-IsWellFormed_example =
    add-IsWellFormed releases empty_graph (ref_of "shop" "") shop "2" true empty-IsWellFormed

shop_added : (add releases orphans (ref_of "shop" "") shop "2" true).1 ≡ none
unfolding program add
shop_added = refl

two_nonempty : ◌≢◌ {A = String} "2" ""
two_nonempty e = cc

add_installs_example :
    (v : Release) × (es : List (VertexRef × Edge ℕ)) × (releases.new_version "2" ≡ ok v)
    × (declared releases [] (targets (ref_of "shop" "") shop) ≡ ok es)
    × (vertex_at (add releases orphans (ref_of "shop" "") shop "2" true).0 (ref_of "shop" "")
        ≡ some (record {
          package_name = (or_new (vertex_at orphans (ref_of "shop" "")) "shop").package_name;
          version = some v;
          manual = true;
          edges = es;
        }))
add_installs_example =
    add_installs releases orphans (ref_of "shop" "") shop "2" true orphans-IsWellFormed two_nonempty
      shop_added

order-Covers : Covers order orphans
unfolding vertex_at get contains
order-Covers n ref present = ground arith

reversed-Covers : Covers reversed orphans
unfolding vertex_at get contains
reversed-Covers n ref present = ground arith

prune_total_example :
    (h : Graph Release ℕ) × (removed : List PackageRef) × (prune order orphans ≡ some (h, removed))
prune_total_example = prune_total order orphans orphans-IsWellFormed

prune_settled_example : IsKept bare (ref_of "db" "")
prune_settled_example =
    prune_settled order orphans orphans-IsWellFormed order-Covers prune-orphans (ref_of "db" "")

prune_fate_example :
    ((vertex_at bare (ref_of "db" "") ≡ vertex_at orphans (ref_of "db" ""))
      ⊎ IsUninstalled orphans bare (ref_of "db" ""))
    × (lists removed_both (ref_of "db" "")
        ≡ (installed_at orphans (ref_of "db" "") && not (installed_at bare (ref_of "db" ""))))
prune_fate_example = prune_fate order orphans orphans-IsWellFormed prune-orphans (ref_of "db" "")

orphans-IsConsistent : IsConsistent releases orphans
unfolding program
orphans-IsConsistent = (validate_iff releases orphans).0 refl

prune-IsConsistent_example : IsWellFormed bare × IsConsistent releases bare
prune-IsConsistent_example =
    prune-IsConsistent order orphans orphans-IsWellFormed prune-orphans releases
      orphans-IsConsistent

prune_confluent_example : vertex_at bare (ref_of "disk" "") ≡ vertex_at bare (ref_of "disk" "")
prune_confluent_example =
    prune_confluent order reversed orphans orphans-IsWellFormed order-Covers reversed-Covers
      prune-orphans prune-reversed (ref_of "disk" "")

-- `shop` needs `db` in a version of at least 2.
max_db :
    max releases cluster (ref_of "db" "") (release 1 "" "1" ∷ release 2 "" "2" ∷ [])
    ≡ some (release 2 "" "2")
unfolding program
max_db = refl

max-best_example :
    IsIn (release 2 "" "2") (release 1 "" "1" ∷ release 2 "" "2" ∷ [])
    × IsAllowed releases cluster (ref_of "db" "") (release 2 "" "2")
    × ((v : Release)
        → IsIn v (release 1 "" "1" ∷ release 2 "" "2" ∷ [])
        → IsAllowed releases cluster (ref_of "db" "") v
        → is_version_upgradable releases (release 2 "" "2") v ≡ false)
max-best_example =
    max-best releases releases-IsLawful cluster (ref_of "db" "")
      (release 1 "" "1" ∷ release 2 "" "2" ∷ []) (release 2 "" "2") (inl refl, (inl refl, tt))
      max_db

max_none : max releases cluster (ref_of "db" "") (release 1 "" "1" ∷ []) ≡ none
unfolding program
max_none = refl
