-- ===== src/Controller/LoopSamples.antt =====
-- A package with a plain manifest: its installation, its deletion and its suspension.
use mathlib.Core.Option
use glasskube.Base.{
  ℕ, String, ◌≡◌, refl, true, Option, none, some, List, [], ◌∷◌, ok, err, is_empty,
}
use glasskube.Assoc.{put, contains, string_key}
use glasskube.Semver.Samples.{Release, releases}
use glasskube.Manifest.{PackageManifest, empty_manifest}
use glasskube.Manager.Samples.{client, unsorted}
use glasskube.Values.Samples.{exact, client as value_client}
use glasskube.Repo.Samples.{clients}
use glasskube.Patch.Samples.{texts}
use glasskube.Controller.Conditions.{set_unknown, condition_unknown}
use glasskube.Controller.Types.{Context, PackageInfo, Api, ReconciledPackage, not_found, deleted}
use glasskube.Controller.Finalize.{Env, finalize_no_requeue, actual_finalize, add_owned, write_back}
use glasskube.Owners.OwnedResources.{add}
use glasskube.Controller.Adapters.{
  Adapters, ReconcileResult, ready_result, waiting_result, failed_result, is_failed, is_waiting,
}
use glasskube.Controller.Required.{DependencyEnv}
use glasskube.Controller.Reconcile.{ValueEnv}
use glasskube.Controller.Loop.{new_context, reconcile_after_deletion, let_go, delete_all}
use glasskube.Controller.Verdicts.{find_first}
use glasskube.Controller.Samples.{
  Conditions, conditions_in_order, Deleted, server, web_shop, resource, info_ref,
}

abbrev env : Env Deleted Conditions
env = record {
  api = server;
  condition_api = conditions_in_order;
  escape = λ name. name;
  combined = λ errs. "errors";
  joined = λ prefix names. prefix;
  lines = λ messages. "installed";
}

abbrev result : ReconcileResult
result = record { kind = ready_result; message = "ok"; owned_resources = resource "c" ∷ [] }

abbrev adapters : Adapters Deleted Conditions String
adapters = record {
  manifest_adapter = some (λ w pkg pi patches. (w, ok result));
  kustomize_adapter = none;
  helm_adapter = none;
}

abbrev vals : ValueEnv Deleted Conditions String String String String
vals = record {
  regexp = exact;
  value_client = λ w. value_client;
  value_fuel = 1;
  patch_library = texts;
  resolve_source = λ w pkg source. ok "";
  sort_names = λ names. names;
  adapters = adapters;
  not_resolved = λ errs. "not resolved";
  not_valid = λ errs. "not valid";
}

abbrev deps : DependencyEnv Deleted Conditions Release ℕ
deps = record {
  lib = releases;
  clients = clients;
  package_client = λ w. client;
  sort = unsorted;
  fuel = 3;
  not_validated = λ stop. "not validated";
  conflicting = λ conflicts. "conflicts";
  owned_ref = λ pkg. none;
  same_values = λ values pkg. true;
}

abbrev plain : PackageManifest
plain = record empty_manifest {
  name = "shop";
  manifests = record { url = "shop.yaml"; default_namespace = "default" } ∷ [];
}

abbrev info : PackageInfo Conditions
info = record {
  ref = some (info_ref "main--shop--1");
  conditions = [];
  version = "1";
  manifest = some plain;
}

abbrev fresh : Context Deleted Conditions
fresh = new_context [] (record web_shop { owned_resources = [] })

-- A server of one package, whose finalizers it holds.
abbrev holding : Api (List String) Conditions
holding = record {
  get_resource = λ w ref. not_found;
  delete = λ w ref. (w, deleted);
  delete_in_foreground = λ w ref. (w, deleted);
  list_packages = λ w. ok [];
  list_cluster_packages = λ w. ok [];
  get_package = λ w namespaced name namespace. not_found;
  update_values = λ w pkg values. (w, ok pkg);
  create_or_update_package = λ w required. (w, none);
  create_or_update_package_info = λ w name template. (w, err "not served");
  ensure_namespace = λ w pkg name. (w, err "not served");
  update_status = λ w pkg. (w, ok (record pkg { finalizers = w }));
  update = λ w pkg. (pkg.finalizers, ok pkg);
}

abbrev holding_env : Env (List String) Conditions
holding_env = record {
  api = holding;
  condition_api = record conditions_in_order {
    set_status_condition = λ s c. (put s c.type c, is_empty s);
  };
  escape = λ name. name;
  combined = λ errs. "errors";
  joined = λ prefix names. prefix;
  lines = λ messages. "installed";
}

abbrev going : ReconciledPackage Conditions
going = record web_shop {
  is_deleting = true;
  owned_package_infos = [];
  conditions =
      (
        "Ready",
        record { type = "Ready"; status = condition_unknown; reason = "Pending"; message = "" },
      )
      ∷ [];
}

-- It is let go, and not while its conditions are new.
let_go_then :
    ((reconcile_after_deletion holding_env (new_context going.finalizers going)).0.world ≡ [])
    × ((reconcile_after_deletion holding_env
          (new_context going.finalizers (record going { conditions = [] }))).0.world
        ≡ going.finalizers)
unfolding reconcile_after_deletion let_go finalize_no_requeue actual_finalize add_owned write_back
    delete_all contains add set_unknown put
let_go_then = (refl, refl)

abbrev waits : ReconcileResult
waits = record { kind = waiting_result; message = "pending"; owned_resources = [] }

abbrev fails : ReconcileResult
fails = record { kind = failed_result; message = "broken"; owned_resources = [] }

failed_first :
    (find_first is_failed (waits ∷ fails ∷ result ∷ []) ≡ some fails)
    × (find_first is_waiting (waits ∷ fails ∷ result ∷ []) ≡ some waits)
unfolding find_first
failed_first = (refl, refl)
