-- ===== src/Plain/Objects.antt =====
-- The objects of a plain manifest, and the namespaces they get: reconcilePlainManifest of
-- internal/manifest/plain/adapter.go up to the default namespace.
use glasskube.Base.{
  String, Bool, true, false, not, ◌&&◌, ◌||◌, List, [], ◌∷◌, str_eq, Result, ok, ◌>>=◌,
  if◌then◌else◌,
}
use glasskube.Patch.Target.{GroupVersionKind, same_gvk}

-- client.Object; `B` is the rest of its content.
pub record Object (B : Type 0) : Type 0 where
  pub gvk : GroupVersionKind
  pub name : String
  pub namespace : String
  pub body : B

-- An error, or a panic.
pub data PlainError : Type 0 where
  failed : String → PlainError
  panicked : PlainError

-- IsObjectNamespaced by the kind of the object, and the kind of a namespace, with its empty content.
pub record Kinds (B : Type 0) : Type 0 where
  pub is_object_namespaced : GroupVersionKind → Result PlainError Bool
  pub namespace_gvk : GroupVersionKind
  pub empty_body : B

-- The objects, whether the default namespace is needed, and whether it is among them.
pub record Placed (B : Type 0) : Type 0 where
  pub objects : List (Object B)
  pub is_required : Bool
  pub is_in_list : Bool

module _ {B : Type 0} (kinds : Kinds B) where
  -- The loop for a package that is namespaced.
  unfoldable pub set_namespaces : String → List (Object B) → Result PlainError (List (Object B))
  set_namespaces namespace [] = ok []
  set_namespaces namespace (obj ∷ objs) = kinds.is_object_namespaced obj.gvk >>= λ is_namespaced.
      set_namespaces namespace objs >>= λ placed.
      ok ((if is_namespaced then record obj { namespace = namespace } else obj) ∷ placed)

  unfoldable pub is_default_namespace : String → Object B → Bool
  is_default_namespace name obj = same_gvk obj.gvk kinds.namespace_gvk && str_eq obj.name name

  abbrev pub in_default : String → Bool → Object B → Object B
  in_default name is_namespaced obj =
      if is_namespaced && str_eq obj.namespace "" then record obj { namespace = name } else obj

  abbrev pub place : Object B → Bool → Bool → Placed B → Placed B
  place obj is_required is_in_list rest = record {
    objects = obj ∷ rest.objects;
    is_required = is_required || rest.is_required;
    is_in_list = is_in_list || rest.is_in_list;
  }

  abbrev pub place_default : String → Object B → Placed B → Bool → Placed B
  place_default name obj rest is_namespaced =
      let placed = in_default name is_namespaced obj in
      place placed (is_namespaced && str_eq placed.namespace name) false rest

  -- The loop for a default namespace.
  unfoldable pub default_namespaces : String → List (Object B) → Result PlainError (Placed B)
  unfolding is_default_namespace
  default_namespaces name [] = ok (record { objects = []; is_required = false; is_in_list = false })
  default_namespaces name (obj ∷ objs) =
      let rest = default_namespaces name objs in
      if is_default_namespace name obj
      then (rest >>= λ placed. ok (place obj false true placed))
      else (kinds.is_object_namespaced obj.gvk >>= λ is_namespaced.
          rest >>= λ placed. ok (place_default name obj placed is_namespaced))

  abbrev pub namespace_object : String → Object B
  namespace_object name = record {
    gvk = kinds.namespace_gvk;
    name = name;
    namespace = "";
    body = kinds.empty_body;
  }

  abbrev pub with_namespace : String → Placed B → List (Object B)
  with_namespace name placed =
      if placed.is_required && not placed.is_in_list
      then namespace_object name ∷ placed.objects
      else placed.objects

  -- The objects in their namespaces, by whether the package is namespaced, its namespace, and the
  -- default namespaces of the manifest and of the PlainManifest, the latter of which goes first.
  unfoldable pub place_objects :
      Bool → String → String → String → List (Object B) → Result PlainError (List (Object B))
  unfolding set_namespaces default_namespaces
  place_objects is_namespace_scoped namespace default_namespace plain_namespace objs =
      let name = if str_eq plain_namespace "" then default_namespace else plain_namespace in
      if is_namespace_scoped
      then set_namespaces namespace objs
      else if str_eq name ""
      then ok objs
      else (default_namespaces name objs >>= λ placed. ok (with_namespace name placed))
