-- ===== src/Listing/Samples.antt =====
-- Two installations of `shop` in namespaces, an outdated cluster package and a repository that is down.
use glasskube.Base.{
  String, ◌≡◌, ◌↔◌, refl, true, false, Option, none, some, List, [], ◌∷◌, Result, ok, err, eq_iff,
  here, there,
}
use glasskube.Manifest.{PackageManifest, empty_manifest, is_cluster, is_namespaced}
use glasskube.Assoc.{get}
use glasskube.Controller.Finalize.{package_info_name}
use glasskube.Manager.Types.{Faults}
use glasskube.Repo.Types.{MetaIndexItem}
use glasskube.Controller.Types.{ReconciledPackage}
use glasskube.Controller.Samples.{Conditions, conditions_in_order, web_shop}
use glasskube.Listing.Lister.{
  PackageWithStatus, PackagesWithStatus, ListOptions, Lister, ListClients,
}
use glasskube.Listing.Fetch.{
  index_of_call, fetch_repo_and_installed, get_cluster_packages_with_status,
  get_packages_with_status,
}
use glasskube.Listing.Found.{HasUniqueNames}
use glasskube.Listing.Outdated.{IsOutdated, Lists, get_cluster_packages_with_status-IsOutdated_iff}
use glasskube.Listing.Manifests.{get_packages_with_status_shares}
use glasskube.Listing.Cache.{fetch_repo_and_installed_cached}

abbrev installed : String → String → String → ReconciledPackage Conditions
installed name package_name version = record web_shop {
  name = name;
  package_info = record { name = package_name; version = version; repository_name = "" };
}

abbrev index_entry : String → Option String → MetaIndexItem
index_entry name scope = record {
  item = record { name = name; latest_version = "2"; scope = scope };
  repos = "main" ∷ [];
}

abbrev manifest_named : String → PackageManifest
manifest_named name = record empty_manifest { name = name }

abbrev old_cart : ReconciledPackage Conditions
old_cart = installed "cart" "cart" "1"

abbrev clients_with : Result String (List MetaIndexItem × Faults) → ListClients Conditions
clients_with index = record {
  meta_index = index;
  repo_index = λ repository. err "not found";
  cluster_packages = ok (old_cart ∷ []);
  packages = λ namespace. ok (installed "a" "shop" "1" ∷ installed "b" "shop" "2" ∷ []);
  package_infos = ok (
      record { name = "shop--1"; manifest = some (manifest_named "first") }
      ∷ record { name = "shop--2"; manifest = some (manifest_named "second") }
      ∷ []);
}

abbrev shop_entry : MetaIndexItem
shop_entry = index_entry "shop" (some "Namespaced")

abbrev up : ListClients Conditions
up = clients_with (ok (index_entry "cart" none ∷ shop_entry ∷ [], []))

abbrev down : ListClients Conditions
down = clients_with (err "connection refused")

abbrev with_cache : Lister
with_cache = record { use_cache = true; cached_index = none }

abbrev outdated : ListOptions
outdated = record {
  include_package_infos = true;
  only_installed = true;
  only_outdated = true;
  repository = "";
  package_name = "";
  namespace = "";
}

abbrev all_packages : ListOptions
all_packages = record outdated { only_installed = false; only_outdated = false }

abbrev unsorted : List String → List String
unsorted names = names

abbrev plain : String → String
plain name = name

abbrev groups : List (PackagesWithStatus Conditions)
unfolding get_packages_with_status
groups = (get_packages_with_status conditions_in_order plain unsorted up with_cache all_packages).1

-- The installation of version 1 is shown with the manifest of version 2.
abbrev entry : String → String → PackageWithStatus Conditions
entry name version = record {
  meta = shop_entry;
  status = some (record { status = "Pending"; reason = ""; message = "" });
  package_of = some (installed name "shop" version);
  installed_manifest = some (manifest_named "second");
}

abbrev shops : PackagesWithStatus Conditions
shops = record { meta = shop_entry; packages = entry "a" "1" ∷ entry "b" "2" ∷ [] }

two_versions : groups ≡ shops ∷ []
unfolding get_packages_with_status is_cluster is_namespaced package_info_name get
two_versions = refl

get_packages_with_status_shares_example :
    (entry "a" "1").installed_manifest ≡ (entry "b" "2").installed_manifest
unfolding get_packages_with_status is_cluster is_namespaced package_info_name get
get_packages_with_status_shares_example =
    get_packages_with_status_shares conditions_in_order plain unsorted up with_cache all_packages
      shops (entry "a" "1") (entry "b" "2") (here refl) (here refl) (there (here refl))

only_old_cart : HasUniqueNames (old_cart ∷ [])
only_old_cart p q (here e) (here f) same = cc
only_old_cart p q (there m) n same = elim m [ ]
only_old_cart p q m (there n) same = elim n [ ]

get_cluster_packages_with_status-IsOutdated_iff_example :
    Lists
      (get_cluster_packages_with_status conditions_in_order plain unsorted up with_cache outdated).1
      (index_entry "cart" none)
      old_cart
    ↔ IsOutdated
        (index_of_call unsorted up with_cache outdated).1
        (old_cart ∷ [])
        (index_entry "cart" none)
        old_cart
get_cluster_packages_with_status-IsOutdated_iff_example =
    get_cluster_packages_with_status-IsOutdated_iff conditions_in_order plain unsorted up with_cache
      outdated (index_entry "cart" none) old_cart refl refl refl only_old_cart

-- Where both sides of it hold.
old_cart-IsOutdated :
    IsOutdated
      (index_of_call unsorted up with_cache outdated).1
      (old_cart ∷ [])
      (index_entry "cart" none)
      old_cart
unfolding index_of_call is_cluster
old_cart-IsOutdated = (here refl, refl, here refl, refl, λ e. cc ((eq_iff "1" "2").1 e))

-- The repository answers again, and the lister still has the empty index of the request that failed.
fetch_repo_and_installed_cached_example :
    index_of_call unsorted up
      (fetch_repo_and_installed unsorted down plain with_cache outdated true false).0
      outdated
    ≡ (
      (fetch_repo_and_installed unsorted down plain with_cache outdated true false).0,
      (index_of_call unsorted down with_cache outdated).1,
      [],
    )
fetch_repo_and_installed_cached_example =
    fetch_repo_and_installed_cached unsorted plain down up with_cache outdated outdated true false
      refl

nothing_listed :
    (get_cluster_packages_with_status conditions_in_order plain unsorted up
      (fetch_repo_and_installed unsorted down plain with_cache outdated true false).0
      outdated)
    ≡ (record { use_cache = true; cached_index = some [] }, [], [])
unfolding get_cluster_packages_with_status fetch_repo_and_installed
nothing_listed = refl
