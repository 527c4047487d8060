-- ===== src/Owners/OwnedResources.antt =====
-- The operations on `[]OwnedResourceRef`. A method that changes the list returns the new one, and
-- whether it has changed it.
use glasskube.Base.{
  String, Bool, true, false, ◌&&◌, ◌||◌, List, [], ◌∷◌, ◌++◌, str_eq, if◌then◌else◌,
}

pub record OwnedResourceRef : Type 0 where
  pub group : String
  pub version : String
  pub kind : String
  pub name : String
  pub namespace : String
  pub marked_for_deletion : Bool

-- RefersToSameResource
unfoldable pub refers_to_same_resource : OwnedResourceRef → OwnedResourceRef → Bool
refers_to_same_resource a b =
    str_eq a.group b.group
    && (str_eq a.version b.version
        && (str_eq a.kind b.kind && (str_eq a.name b.name && str_eq a.namespace b.namespace)))

-- Whether the inner loop of `Add` continues the outer one.
unfoldable pub refers : List OwnedResourceRef → OwnedResourceRef → Bool
refers [] new_ref = false
refers (ref ∷ refs) new_ref = refers_to_same_resource ref new_ref || refers refs new_ref

unfoldable pub add_from :
    List OwnedResourceRef → List OwnedResourceRef → Bool → List OwnedResourceRef × Bool
unfolding refers
add_from refs [] changed = (refs, changed)
add_from refs (new_ref ∷ new_refs) changed =
    if refers refs new_ref
    then add_from refs new_refs changed
    else add_from (refs ++ new_ref ∷ []) new_refs true

-- Add
unfoldable pub add : List OwnedResourceRef → List OwnedResourceRef → List OwnedResourceRef × Bool
unfolding add_from
add refs new_refs = add_from refs new_refs false

abbrev after : OwnedResourceRef → List OwnedResourceRef × Bool → List OwnedResourceRef × Bool
after ref (refs, changed) = (ref ∷ refs, changed)

-- Remove
unfoldable pub remove : List OwnedResourceRef → OwnedResourceRef → List OwnedResourceRef × Bool
unfolding refers_to_same_resource
remove [] to_remove = ([], false)
remove (ref ∷ refs) to_remove =
    if refers_to_same_resource ref to_remove
    then (refs, true)
    else after ref (remove refs to_remove)

-- MarkForDeletion
unfoldable pub mark_for_deletion :
    List OwnedResourceRef → OwnedResourceRef → List OwnedResourceRef × Bool
unfolding refers_to_same_resource
mark_for_deletion [] to_remove = ([], false)
mark_for_deletion (ref ∷ refs) to_remove =
    if refers_to_same_resource ref to_remove
    then (record ref { marked_for_deletion = true } ∷ refs, true)
    else after ref (mark_for_deletion refs to_remove)
