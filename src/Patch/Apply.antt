-- ===== src/Patch/Apply.antt =====
-- How patches apply to a resource and to a HelmRelease.
use glasskube.Base.{
  String, Bool, false, Option, none, some, List, [], ◌∷◌, str_eq, Result, ok, ◌>>=◌, if◌then◌else◌,
}
use glasskube.Patch.Target.{PatchLibrary, TargetPatch, ObjectKind, matches}

-- What is read of a HelmRelease: the chart, and the raw JSON of the values, which may be nil.
pub record HelmRelease : Type 0 where
  pub chart : String
  pub values : Option String

module _ {J T P O : Type 0} (lib : PatchLibrary J T P) (objects : ObjectKind O) where
  -- TargetPatch.apply
  unfoldable pub apply : P → O → Result String O
  apply patch obj = objects.marshal obj >>= λ text.
      lib.apply_patch patch text >>= λ patched. objects.unmarshal_into patched obj

  -- TargetPatch.ApplyToResource
  unfoldable pub apply_one_to_resource : TargetPatch P → O → Result String O
  unfolding apply matches
  apply_one_to_resource p obj = if matches objects p.resource obj then apply p.patch obj else ok obj

  -- TargetPatches.ApplyToResource. An error leaves the object to the caller, who does not use it.
  unfoldable pub apply_to_resource : List (TargetPatch P) → O → Result String O
  unfolding apply_one_to_resource
  apply_to_resource [] obj = ok obj
  apply_to_resource (p ∷ ps) obj = apply_one_to_resource p obj >>= λ obj'. apply_to_resource ps obj'

module _ {J T P : Type 0} (lib : PatchLibrary J T P) (json : ObjectKind String) where
  unfoldable pub match_helm_release : TargetPatch P → HelmRelease → Bool
  match_helm_release p release = elim p.helm_chart [
    | none ↦ false
    | some chart ↦ str_eq chart release.chart
  ]

  abbrev raw_values : Option String → String
  raw_values none = "{}"
  raw_values (some raw) = if str_eq raw "" then "{}" else raw

  -- TargetPatch.ApplyToHelmRelease
  unfoldable pub apply_one_to_helm_release : TargetPatch P → HelmRelease → Result String HelmRelease
  unfolding match_helm_release apply
  apply_one_to_helm_release p release =
      if match_helm_release p release
      then (apply lib json p.patch (raw_values release.values) >>= λ values.
          ok (record release { values = some values }))
      else ok release

  -- TargetPatches.ApplyToHelmRelease
  unfoldable pub apply_to_helm_release :
      List (TargetPatch P) → HelmRelease → Result String HelmRelease
  unfolding apply_one_to_helm_release
  apply_to_helm_release [] release = ok release
  apply_to_helm_release (p ∷ ps) release =
      apply_one_to_helm_release p release >>= λ release'. apply_to_helm_release ps release'
