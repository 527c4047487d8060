-- ===== src/Patch/Generate.antt =====
-- GeneratePatches of internal/resourcepatch/patch.go, and the patches of transformations in
-- internal/manifesttransformations/patches.go.
use glasskube.Base.{String, Option, none, some, List, [], ◌∷◌, ◌++◌, Result, ok, ◌>>=◌}
use glasskube.Assoc.{get, keys, string_key}
use glasskube.Manifest.{
  ValueDefinitionTarget, ValueDefinition, TransformationSource, TransformationDefinition,
  PackageManifest,
}
use glasskube.Patch.Target.{PatchLibrary, TargetPatch, generate_target_patch}

abbrev pub TargetPatches : Type 0 → Type 0
TargetPatches P = List (TargetPatch P)

module _ {J T P : Type 0} (lib : PatchLibrary J T P) where
  -- The loop over the targets of one value.
  unfoldable pub target_patches : List ValueDefinitionTarget → J → Result String (TargetPatches P)
  target_patches [] value = ok []
  target_patches (target ∷ targets) value = generate_target_patch lib target value >>= λ p.
      target_patches targets value >>= λ ps. ok (p ∷ ps)

  unfoldable pub value_patches :
      Option ValueDefinition → Option String → Result String (TargetPatches P)
  value_patches none value = ok []
  value_patches (some def) none = ok []
  value_patches (some def) (some value) = target_patches def.targets (lib.of_string value)

  -- The loop over the names, sorted.
  unfoldable pub patches_from :
      List (String × ValueDefinition)
      → List (String × String)
      → List String
      → Result String (TargetPatches P)
  unfolding value_patches target_patches
  patches_from definitions values [] = ok []
  patches_from definitions values (name ∷ names) =
      value_patches (get definitions name) (get values name) >>= λ ps.
      patches_from definitions values names >>= λ qs. ok (ps ++ qs)

  -- GeneratePatches. `sort` is the slices.Sort of maputils.KeysSorted.
  unfoldable pub generate_patches :
      (List String → List String)
      → PackageManifest
      → List (String × String)
      → Result String (TargetPatches P)
  unfolding patches_from
  generate_patches sort manifest values =
      patches_from manifest.value_definitions values (sort (keys manifest.value_definitions))

  -- manifesttransformations.GeneratePatches is `target_patches` on the targets of the definition.
  -- `resolve` is SourceResolver.Resolve for the package.
  unfoldable pub transformation_patches :
      (TransformationSource → Result String J)
      → List TransformationDefinition
      → Result String (TargetPatches P)
  unfolding target_patches
  transformation_patches resolve [] = ok []
  transformation_patches resolve (t ∷ ts) = resolve t.source >>= λ value.
      target_patches t.targets value >>= λ ps.
      transformation_patches resolve ts >>= λ qs. ok (ps ++ qs)

  -- ResolveAndGeneratePatches
  unfoldable pub resolve_and_generate_patches :
      (TransformationSource → Result String J) → PackageManifest → Result String (TargetPatches P)
  unfolding transformation_patches
  resolve_and_generate_patches resolve manifest =
      transformation_patches resolve manifest.transformations
