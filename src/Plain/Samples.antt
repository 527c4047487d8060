-- ===== src/Plain/Samples.antt =====
-- Runs of the adapter for plain manifests, and the witnesses of its theorems.
use glasskube.Base.{
  ℕ, suc, String, ◌≡◌, ◌↔◌, refl, Bool, true, false, not, none, some, [], ◌∷◌, str_eq, ok,
}
use glasskube.Base.Int.{pos}
use glasskube.Manifest.{PackageManifest, empty_manifest}
use glasskube.Owners.OwnedResources.{OwnedResourceRef, refers_to_same_resource}
use glasskube.Controller.Types.{not_found}
use glasskube.Controller.Adapters.{ReconcileResult, ready_result}
use glasskube.Plain.Objects.{Object, Kinds, place_objects, namespace_object}
use glasskube.Plain.Adapter.{Cluster, PlainPackage, reconcile_plain}
use glasskube.Plain.Placed.{HaveNamespaces}
use glasskube.Plain.Namespaces.{place_objects-HaveNamespaces}
use glasskube.Plain.Ready.{reconcile_plain-ready, AreReady}

abbrev kinds : Kinds Bool
kinds = record {
  is_object_namespaced = λ gvk. ok (not (str_eq gvk.kind "Namespace"));
  namespace_gvk = record { group = ""; version = "v1"; kind = "Namespace" };
  empty_body = false;
}

abbrev deployment : String → Object Bool
deployment namespace = record {
  gvk = record { group = "apps"; version = "v1"; kind = "Deployment" };
  name = "web";
  namespace = namespace;
  body = false;
}

abbrev ref_of : Object Bool → OwnedResourceRef
ref_of obj = record {
  group = obj.gvk.group;
  version = obj.gvk.version;
  kind = obj.gvk.kind;
  name = obj.name;
  namespace = obj.namespace;
  marked_for_deletion = false;
}

-- The state counts the objects that were applied.
abbrev cluster : Cluster ℕ Bool
cluster = record {
  kinds = kinds;
  get_labels = λ w obj. not_found;
  set_managed_owner = λ obj. ok obj;
  set_spec_hash = λ hash body. some true;
  apply = λ w obj. (suc w, none);
  get_replicas = λ w ref. ok (record { ready = pos 1; specified = some (pos 1) });
  ref_of = λ obj. ok (ref_of obj);
  fetch_resources = λ w url. ok (deployment "" ∷ []);
  kustomize_objects = λ objs. ok objs;
  parse_group_version = λ s. ok ("", s);
}

abbrev pkg : PlainPackage
pkg = record { is_namespace_scoped = false; namespace = ""; spec_hash = some "hash" }

abbrev manifest : PackageManifest
manifest = record empty_manifest {
  manifests = record { url = "manifest.yaml"; default_namespace = "" } ∷ [];
  default_namespace = "demo";
}

place_objects_example :
    place_objects kinds false "" "demo" "" (deployment "" ∷ [])
    ≡ ok (namespace_object kinds "demo" ∷ deployment "demo" ∷ [])
unfolding place_objects
place_objects_example = refl

place_objects-HaveNamespaces_example :
    HaveNamespaces kinds "demo" (namespace_object kinds "demo" ∷ deployment "demo" ∷ [])
place_objects-HaveNamespaces_example =
    place_objects-HaveNamespaces kinds "" "demo" "" (deployment "" ∷ [])
      (namespace_object kinds "demo" ∷ deployment "demo" ∷ []) (λ e. cc e) refl
      place_objects_example

-- Both the namespace and the Deployment in it are applied and owned.
abbrev reconciled : ReconcileResult
reconciled = record {
  kind = ready_result;
  message = "manifests reconciled";
  owned_resources = ref_of (namespace_object kinds "demo") ∷ ref_of (deployment "demo") ∷ [];
}

reconcile_plain_example :
    reconcile_plain cluster (λ obj. ok obj) pkg 0 manifest ≡ (2, ok reconciled)
unfolding reconcile_plain refers_to_same_resource
reconcile_plain_example = refl

reconcile_plain-ready_example :
    (ready_result ≡ ready_result)
    ↔ AreReady cluster (λ obj. ok obj) pkg 2 reconciled.owned_resources
reconcile_plain-ready_example =
    reconcile_plain-ready cluster (λ obj. ok obj) pkg 0 2 manifest reconciled
      reconcile_plain_example
