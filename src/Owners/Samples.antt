-- ===== src/Owners/Samples.antt =====
-- Two resources, of which one is added twice.
use glasskube.Base.{String, ◌≡◌, refl, true, false, [], ◌∷◌}
use glasskube.Owners.OwnedResources.{
  OwnedResourceRef, refers_to_same_resource, refers, add, remove, mark_for_deletion,
}
use glasskube.Owners.Sets.{IsUnique}

abbrev ref : String → String → OwnedResourceRef
ref kind name = record {
  group = "apps";
  version = "v1";
  kind = kind;
  name = name;
  namespace = "default";
  marked_for_deletion = false;
}

abbrev web : OwnedResourceRef
web = ref "Deployment" "web"

abbrev store : OwnedResourceRef
store = ref "StatefulSet" "store"

owned_test :
    (add (web ∷ []) (store ∷ web ∷ store ∷ []) ≡ (web ∷ store ∷ [], true))
    × (remove (web ∷ store ∷ []) store ≡ (web ∷ [], true))
    × ((mark_for_deletion (web ∷ []) store).1 ≡ false)
unfolding add remove mark_for_deletion
owned_test = (refl, refl, refl)

both-IsUnique : IsUnique (web ∷ store ∷ [])
unfolding refers refers_to_same_resource
both-IsUnique = (refl, (refl, tt))
