-- ===== src/Update/ApplySamples.antt =====
-- Two updates of which one is required, and what the watch of the server tells of it.
use glasskube.Base.{String, ◌≡◌, ◌↔◌, refl, true, false, Option, none, some, List, [], ◌∷◌, ok}
use glasskube.Manager.Types.{InstalledPackage}
use glasskube.Controller.Conditions.{Condition, condition_false, condition_unknown}
use glasskube.Update.Transaction.{UpdateTransactionItem}
use glasskube.Update.Samples.{installed_shop}
use glasskube.Update.Apply.{
  WatchEvent, package_event, other_event, not_ready, closed_unexpectedly, Cluster,
  ApplyUpdateOptions, await, apply_transaction,
}
use glasskube.Update.Await.{EndsWell, await_iff}
use glasskube.Update.Applied.{Updates, apply_transaction_iff}
use glasskube.Update.Getters.{
  GetterClient, get_of, get_packages_with_names, get_package_with_name,
  get_cluster_package_with_name,
}

abbrev event : String → String → Option Condition → WatchEvent
event uid status_version ready =
    package_event
      (record { uid = uid; status_version = status_version; version = "2"; ready = ready })

abbrev broken : Condition
broken = record {
  type = "Ready";
  status = condition_false;
  reason = "InstallationFailed";
  message = "";
}

abbrev pending : Condition
pending = record broken { status = condition_unknown }

-- A failure of another package, a condition that is not known yet, and the new version.
abbrev goes_well : List WatchEvent
goes_well =
    other_event
    ∷ event "other" "1" (some broken)
    ∷ event "shop" "1" (some pending)
    ∷ event "shop" "2" none
    ∷ []

await_test :
    (await "shop" (event "shop" "1" (some broken) ∷ goes_well) ≡ some (not_ready broken))
    × (await "cart" goes_well ≡ some closed_unexpectedly)
unfolding await
await_test = (refl, refl)

await_iff_example : (await "shop" goes_well ≡ none) ↔ EndsWell "shop" goes_well
await_iff_example = await_iff "shop" goes_well

-- Where both sides of it hold.
goes_well-none : await "shop" goes_well ≡ none
unfolding await
goes_well-none = refl

abbrev cluster : Cluster (List InstalledPackage)
cluster = record {
  update = λ w pkg dry_run. (pkg ∷ w, none);
  watch = λ w pkg. ok goes_well;
  uid_of = λ pkg. pkg.name;
  retry = λ call w. call w;
}

abbrev opts : ApplyUpdateOptions
opts = record { blocking = true; dry_run = false }

abbrev items : List UpdateTransactionItem
items =
    record { package_of = installed_shop; version = "2" }
    ∷ record { package_of = installed_shop; version = "" }
    ∷ []

abbrev updated : List InstalledPackage
updated = record installed_shop { version = "2" } ∷ []

-- The state of the server has the updates that were made.
applied : apply_transaction cluster opts items [] ≡ (updated, ok updated)
unfolding apply_transaction
applied = refl

apply_transaction_iff_example :
    (apply_transaction cluster opts items [] ≡ (updated, ok updated))
    ↔ Updates cluster opts items [] updated updated
apply_transaction_iff_example = apply_transaction_iff cluster opts items [] updated updated

abbrev getter_client : GetterClient
getter_client = record {
  all_cluster_packages = ok (installed_shop ∷ []);
  all_packages = λ namespace. ok [];
  get_cluster_package = λ name. ok installed_shop;
  get_package = λ namespace name. ok (record installed_shop { namespace = namespace; name = name });
}

-- Packages that are asked for by their names are not found.
getters_test :
    (get_of getter_client (get_packages_with_names (("default", "shop") ∷ [])) ≡ ok [])
    × (get_of getter_client (get_package_with_name "default" "shop")
        ≡ ok (record installed_shop { namespace = "default" } ∷ []))
    × (get_of getter_client (get_cluster_package_with_name "shop") ≡ ok (installed_shop ∷ []))
unfolding get_of get_packages_with_names get_package_with_name get_cluster_package_with_name
getters_test = (refl, refl, refl)
