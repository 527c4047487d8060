-- ===== src/Patch/Target.antt =====
-- One patch: GenerateTargetPatch and what it matches, of internal/resourcepatch/patch.go.
use glasskube.Base.{
  String, Bool, true, false, ◌&&◌, Option, none, some, str_eq, Result, ok, ◌>>=◌, if◌then◌else◌,
}
use glasskube.Manifest.{TypedObjectReference, PartialJsonPatch, ValueDefinitionTarget}

pub record GroupVersion : Type 0 where
  pub group : String
  pub version : String

pub record GroupVersionKind : Type 0 where
  pub group : String
  pub version : String
  pub kind : String

-- text/template, encoding/json, schema.ParseGroupVersion and json-patch: a JSON value is a `J`, a
-- parsed template a `T`, and a decoded patch a `P`. An error is its text.
pub record PatchLibrary (J T P : Type 0) : Type 0 where
  pub of_string : String → J
  pub parse_template : String → Result String T
  pub execute : T → J → Result String String
  pub unmarshal : String → Result String J
  pub marshal_patch : PartialJsonPatch → J → Result String String
  pub decode_patch : String → Result String P
  pub apply_patch : P → String → Result String String
  pub parse_group_version : String → Result String GroupVersion

pub record TargetResource : Type 0 where
  pub gvk : GroupVersionKind
  pub name : String
  pub namespace : Option String

pub record TargetPatch (P : Type 0) : Type 0 where
  pub resource : Option TargetResource
  pub helm_chart : Option String
  pub patch : P

module _ {J T P : Type 0} (lib : PatchLibrary J T P) where
  group_version : Option String → Result String GroupVersion
  group_version none = ok (record { group = ""; version = "" })
  group_version (some api_group) = lib.parse_group_version api_group

  unfoldable pub generate_target_resource : TypedObjectReference → Result String TargetResource
  unfolding group_version
  generate_target_resource ref = group_version ref.api_group >>= λ gv. ok (record {
    gvk = record { group = gv.group; version = gv.version; kind = ref.kind };
    name = ref.name;
    namespace = ref.namespace;
  })

  unfoldable pub get_actual_value : ValueDefinitionTarget → J → Result String J
  get_actual_value target value =
      if str_eq target.value_template ""
      then ok value
      else (lib.parse_template target.value_template >>= λ tmpl.
          lib.execute tmpl value >>= λ text. lib.unmarshal text)

  unfoldable pub generate_json_patch : PartialJsonPatch → J → Result String P
  generate_json_patch p value = lib.marshal_patch p value >>= λ text. lib.decode_patch text

  with_target : ValueDefinitionTarget → P → Result String (TargetPatch P)
  unfolding generate_target_resource
  with_target target patch = elim target.resource [
    | some ref ↦ generate_target_resource ref >>= λ resource.
        ok (record { resource = some resource; helm_chart = none; patch = patch })
    | none ↦ ok (record { resource = none; helm_chart = target.chart_name; patch = patch })
  ]

  -- GenerateTargetPatch
  unfoldable pub generate_target_patch : ValueDefinitionTarget → J → Result String (TargetPatch P)
  unfolding get_actual_value generate_json_patch with_target
  generate_target_patch target value = get_actual_value target value >>= λ actual.
      generate_json_patch target.patch actual >>= λ patch. with_target target patch

-- The accessors of metav1.Object and runtime.Object, and its JSON codec. Unmarshalling fills the
-- object that is there.
pub record ObjectKind (O : Type 0) : Type 0 where
  pub gvk_of : O → GroupVersionKind
  pub name_of : O → String
  pub namespace_of : O → String
  pub marshal : O → Result String String
  pub unmarshal_into : String → O → Result String O

abbrev pub same_gvk : GroupVersionKind → GroupVersionKind → Bool
same_gvk a b = str_eq a.group b.group && (str_eq a.version b.version && str_eq a.kind b.kind)

module _ {O : Type 0} (objects : ObjectKind O) where
  abbrev same_namespace : Option String → O → Bool
  same_namespace none obj = true
  same_namespace (some namespace) obj = str_eq namespace (objects.namespace_of obj)

  -- targetResource.Match, on a receiver that may be nil.
  unfoldable pub matches : Option TargetResource → O → Bool
  matches none obj = false
  matches (some r) obj =
      same_gvk r.gvk (objects.gvk_of obj)
      && (str_eq r.name (objects.name_of obj) && same_namespace r.namespace obj)
