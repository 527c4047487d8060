-- ===== src/Patch/Samples.antt =====
-- A value that sets the replicas of a deployment, over a small patch library.
use glasskube.Base.{String, ◌≡◌, refl, none, some, List, [], ◌∷◌, ok, IsIn}
use glasskube.Assoc.{get, keys, string_key}
use glasskube.Manifest.{empty_manifest, ValueDefinition, ValueDefinitionTarget, PackageManifest}
use glasskube.Values.Samples.{replicas}
use glasskube.Patch.Target.{
  PatchLibrary, TargetResource, TargetPatch, ObjectKind, generate_target_patch,
}
use glasskube.Patch.Generate.{generate_patches}
use glasskube.Patch.Complete.{IsPatchOfValue, generate_patches_exact}

-- JSON values, templates and patches are texts; a patch replaces the whole text.
abbrev pub texts : PatchLibrary String String String
texts = record {
  of_string = λ s. s;
  parse_template = λ s. ok s;
  execute = λ t v. ok t;
  unmarshal = λ s. ok s;
  marshal_patch = λ p v. ok v;
  decode_patch = λ s. ok s;
  apply_patch = λ p s. ok p;
  parse_group_version = λ s. ok (record { group = s; version = "v1" });
}

abbrev target : ValueDefinitionTarget
target = record {
  resource =
      some
        (record { api_group = some "apps"; kind = "Deployment"; name = "web"; namespace = none });
  chart_name = none;
  patch = record { op = "replace"; path = "/spec/replicas" };
  value_template = "";
}

abbrev manifest : PackageManifest
manifest = record empty_manifest {
  value_definitions = ("replicas", record replicas { targets = target ∷ [] }) ∷ [];
}

abbrev values : List (String × String)
values = ("replicas", "3") ∷ []

abbrev web : TargetResource
web = record {
  gvk = record { group = "apps"; version = "v1"; kind = "Deployment" };
  name = "web";
  namespace = none;
}

abbrev made : TargetPatch String
made = record { resource = some web; helm_chart = none; patch = "3" }

generated : generate_patches texts (λ ks. ks) manifest values ≡ ok (made ∷ [])
unfolding generate_patches generate_target_patch get keys
generated = refl

generate_patches_exact_example :
    ((p : TargetPatch String)
      → IsIn p (made ∷ [])
      → IsPatchOfValue texts manifest.value_definitions values (keys manifest.value_definitions) p)
    × ((name : String) (def : ValueDefinition) (value : String) (t : ValueDefinitionTarget)
        → get manifest.value_definitions name ≡ some def
        → get values name ≡ some value
        → IsIn t def.targets
        → (p : TargetPatch String) × (generate_target_patch texts t value ≡ ok p)
          × IsIn p (made ∷ []))
generate_patches_exact_example =
    generate_patches_exact texts (λ ks. ks) (λ ks k. refl) manifest values (made ∷ []) generated

-- An object is its name: every object is a deployment of that name.
abbrev deployments : ObjectKind String
deployments = record {
  gvk_of = λ o. record { group = "apps"; version = "v1"; kind = "Deployment" };
  name_of = λ o. o;
  namespace_of = λ o. "default";
  marshal = λ o. ok o;
  unmarshal_into = λ s o. ok s;
}

abbrev elsewhere : TargetPatch String
elsewhere = record { resource = some (record web { name = "db" }); helm_chart = none; patch = "5" }
