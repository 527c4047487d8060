-- ===== src/Controller/Selected.antt =====
-- The adapters that run for a manifest: adaptersToRun of internal/controller/common.go.
use mathlib.Core.Path.{subst}
use glasskube.Base.{
  ok-injective, String, ◌≡◌, refl, Bool, true, false, not, Option, none, some, List, [], ◌∷◌, ◌++◌,
  ok, IsIn, here, IsIn-append_left, IsIn-append_right, is_empty, is_some, bind-eq-ok,
}
use glasskube.Manifest.{PackageManifest}
use glasskube.Controller.Adapters.{Adapter, Adapters, selected, adapters_to_run}

-- The adapter is there, and it is one of those that run.
abbrev pub Runs : {W S P : Type 0} → Option (Adapter W S P) → List (Adapter W S P) → Type 0
Runs {W} {S} {P} o adapters = (a : Adapter W S P) × (o ≡ some a) × IsIn a adapters

-- Each format that the manifest has runs its adapter.
pub record RunsEach {W S P : Type 0} (known : Adapters W S P) (m : PackageManifest)
    (adapters : List (Adapter W S P)) : Type 0 where
  pub for_manifests : is_empty m.manifests ≡ false → Runs known.manifest_adapter adapters
  pub for_kustomize : is_some m.kustomize ≡ true → Runs known.kustomize_adapter adapters
  pub for_helm : is_some m.helm ≡ true → Runs known.helm_adapter adapters

module _ {W S P : Type 0} (known : Adapters W S P) where
  selected-Runs :
      (wanted : Bool) (o : Option (Adapter W S P)) (message : String)
      (chosen : List (Adapter W S P))
      → selected known wanted o message ≡ ok chosen
      → wanted ≡ true
      → Runs o chosen
  selected-Runs false o message chosen e is_wanted = cc
  selected-Runs true none message chosen e is_wanted = cc
  selected-Runs true (some a) message [] e is_wanted = cc
  selected-Runs true (some a) message (b ∷ bs) e is_wanted = (a, refl, here cc)

  Runs-append_left :
      (o : Option (Adapter W S P)) (xs ys : List (Adapter W S P)) → Runs o xs → Runs o (xs ++ ys)
  Runs-append_left o xs ys (a, is_a, member) = (a, is_a, IsIn-append_left ys member)

  Runs-append_right :
      (o : Option (Adapter W S P)) (xs ys : List (Adapter W S P)) → Runs o ys → Runs o (xs ++ ys)
  Runs-append_right o xs ys (a, is_a, member) = (a, is_a, IsIn-append_right xs member)

  each_runs :
      (m : PackageManifest) (xs ys zs : List (Adapter W S P))
      → selected known (not (is_empty m.manifests)) known.manifest_adapter "manifests not supported"
        ≡ ok xs
      → selected known (is_some m.kustomize) known.kustomize_adapter "kustomize not supported"
        ≡ ok ys
      → selected known (is_some m.helm) known.helm_adapter "helm not supported" ≡ ok zs
      → RunsEach known m (xs ++ ys ++ zs)
  each_runs m xs ys zs is_xs is_ys is_zs = record {
    for_manifests = λ there_are. Runs-append_left known.manifest_adapter (xs ++ ys) zs (
        Runs-append_left known.manifest_adapter xs ys (
          selected-Runs (not (is_empty m.manifests)) known.manifest_adapter _ xs is_xs
            (rw there_are refl)));
    for_kustomize = λ there_is. Runs-append_left known.kustomize_adapter (xs ++ ys) zs (
        Runs-append_right known.kustomize_adapter xs ys
          (selected-Runs (is_some m.kustomize) known.kustomize_adapter _ ys is_ys there_is));
    for_helm = λ there_is.
        Runs-append_right known.helm_adapter (xs ++ ys) zs
          (selected-Runs (is_some m.helm) known.helm_adapter _ zs is_zs there_is);
  }

  pub adapters_to_run-RunsEach :
      (m : PackageManifest) (adapters : List (Adapter W S P))
      → adapters_to_run known m ≡ ok adapters
      → RunsEach known m adapters
  unfolding adapters_to_run
  adapters_to_run-RunsEach m adapters e =
      let (xs, is_xs, e1) =
        bind-eq-ok
          (selected known (not (is_empty m.manifests)) known.manifest_adapter
            "manifests not supported")
          _ e in
      let (ys, is_ys, e2) =
        bind-eq-ok
          (selected known (is_some m.kustomize) known.kustomize_adapter "kustomize not supported") _
          e1 in
      let (zs, is_zs, e3) =
        bind-eq-ok (selected known (is_some m.helm) known.helm_adapter "helm not supported") _ e2 in
      subst (RunsEach known m) (ok-injective e3) (each_runs m xs ys zs is_xs is_ys is_zs)
