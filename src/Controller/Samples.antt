-- ===== src/Controller/Samples.antt =====
-- A small API server, whose state is the list of the deleted resources, and reconciliations on it.
use glasskube.Base.{
  String, ◌≡◌, refl, Bool, true, false, Option, none, some, List, [], ◌∷◌, ◌++◌, ok, err, IsIn, All,
  if◌then◌else◌, is_empty,
}
use glasskube.Assoc.{get, put, get-put, string_key}
use glasskube.Owners.OwnedResources.{OwnedResourceRef, refers, refers_to_same_resource}
use glasskube.Controller.Conditions.{
  Condition, ConditionStatus, condition_true, condition_false, condition_unknown, ConditionApi,
  IsLawful,
}
use glasskube.Controller.Types.{
  Api, Context, ReconciledPackage, found, not_found, deleted, is_managed,
}
use glasskube.Controller.Prune.{prune_owned_resources, is_current}
use glasskube.Controller.Prune.Spec.{Deletes, prune_owned_resources_effect}
use glasskube.Controller.Prune.Skipped.{IsPruned, prune_owned_resources_skips}
use glasskube.Controller.Loop.{new_context}

abbrev pub Conditions : Type 0
Conditions = List (String × Condition)

abbrev has_status : ConditionStatus → Option Condition → Bool
has_status s none = false
has_status condition_true (some c) = elim c.status [ condition_true ↦ true | _ ↦ false ]
has_status condition_false (some c) = elim c.status [ condition_false ↦ true | _ ↦ false ]
has_status condition_unknown (some c) = elim c.status [ condition_unknown ↦ true | _ ↦ false ]

abbrev pub conditions_in_order : ConditionApi Conditions
conditions_in_order = record {
  is_unset = is_empty;
  set_status_condition = λ s c. (put s c.type c, true);
  find_status_condition = get;
  is_status_condition_true = λ s t. has_status condition_true (get s t);
  is_status_condition_false = λ s t. has_status condition_false (get s t);
}

conditions_in_order-IsLawful : IsLawful conditions_in_order
conditions_in_order-IsLawful = record {
  find_set = λ s c type. get-put s c.type type c;
  unchanged = λ s c e. cc;
}

abbrev pub Deleted : Type 0
Deleted = List OwnedResourceRef

abbrev managed_labels : List (String × String)
managed_labels = ("app.kubernetes.io/managed-by", "glasskube") ∷ []

abbrev pub resource : String → OwnedResourceRef
resource name = record {
  group = "";
  version = "v1";
  kind = "ConfigMap";
  name = name;
  namespace = "default";
  marked_for_deletion = false;
}

abbrev pub info_ref : String → OwnedResourceRef
info_ref name = record (resource name) { kind = "PackageInfo"; namespace = "" }

abbrev pub server : Api Deleted Conditions
server = record {
  get_resource = λ w ref. if refers w ref then not_found else found managed_labels;
  delete = λ w ref. (w ++ ref ∷ [], deleted);
  delete_in_foreground = λ w ref. (w ++ ref ∷ [], deleted);
  list_packages = λ w. ok [];
  list_cluster_packages = λ w. ok [];
  get_package = λ w namespaced name namespace. not_found;
  update_values = λ w pkg values. (w, ok pkg);
  create_or_update_package = λ w required. (w, none);
  create_or_update_package_info = λ w name template. (w, err "not served");
  ensure_namespace = λ w pkg name. (w, err "not served");
  update_status = λ w pkg. (w, ok pkg);
  update = λ w pkg. (w, ok pkg);
}

abbrev pub web_shop : ReconciledPackage Conditions
web_shop = record {
  name = "shop";
  namespace = "";
  is_namespace_scoped = false;
  is_deleting = false;
  installed_as_dependency = false;
  finalizers = "packages.glasskube.dev/packageDeletion" ∷ [];
  package_info = record { name = "shop"; version = "1"; repository_name = "main" };
  values = [];
  suspend = false;
  version = "";
  conditions = [];
  owned_resources = resource "a" ∷ resource "b" ∷ resource "c" ∷ [];
  owned_package_infos = info_ref "main--shop--1" ∷ [];
  owned_packages = [];
}

abbrev pub context : Context Deleted Conditions
context = record (new_context [] web_shop) { current_owned_resources = resource "c" ∷ [] }

-- Of the stale `a` and `b`, the reference to `b` is left: the loop has passed over it.
passed_over :
    (prune_owned_resources server context).0.pkg.owned_resources ≡ resource "b" ∷ resource "c" ∷ []
unfolding prune_owned_resources refers
passed_over = refl

prune_owned_resources_effect_example :
    Deletes server web_shop.owned_resources context.current_owned_resources []
      (prune_owned_resources server context).0.world
    × ((r : OwnedResourceRef)
        → IsIn r (prune_owned_resources server context).0.pkg.owned_resources
        → IsIn r web_shop.owned_resources)
    × ((r : OwnedResourceRef)
        → IsIn r web_shop.owned_resources
        → is_current context.current_owned_resources r ≡ true
        → IsIn r (prune_owned_resources server context).0.pkg.owned_resources)
prune_owned_resources_effect_example = prune_owned_resources_effect server context

first-IsPruned : IsPruned server context (resource "a")
unfolding is_current refers refers_to_same_resource is_managed
first-IsPruned = record {
  stale = refl;
  labels = managed_labels;
  exists = refl;
  managed = refl;
  after = resource "a" ∷ [];
  is_deleted = refl;
}

away :
    All
      (λ (y : OwnedResourceRef). refers_to_same_resource (resource "b") y ≡ false)
      (resource "c" ∷ [])
unfolding refers_to_same_resource
away = (refl, tt)

prune_owned_resources_skips_example :
    IsIn (resource "b") (prune_owned_resources server context).0.pkg.owned_resources
prune_owned_resources_skips_example =
    prune_owned_resources_skips server context (resource "a") (resource "b") (resource "c") [] refl
      away first-IsPruned
