-- ===== src/Controller/Installed.antt =====
-- The required packages of a package, once ensureDependencies of internal/controller/common.go lets the
-- reconciliation go on.
use mathlib.Core.Path.{subst}
use glasskube.Base.{
  ok-injective, String, ◌≡◌, refl, sym, true, false, Option, none, some, List, [], ◌∷◌, ◌++◌,
  append-eq-nil, Result, ok, err, All, inl, inr, Bool-cases, Result-cases, str_eq, if◌then◌else◌,
}
use glasskube.Manifest.{PackageManifest, Dependency, Component}
use glasskube.Graph.Changes.{component_name}
use glasskube.Owners.OwnedResources.{OwnedResourceRef}
use glasskube.Controller.Conditions.{ready, failed}
use glasskube.Controller.Types.{ReconciledPackage, Reply, found, not_found, get_failed}
use glasskube.Controller.Finalize.{Env}
use glasskube.Controller.Required.{
  DependencyEnv, Required, Wanted, as_package_values, judge, owning, after_update, handle_found,
  handle_required_package, handle_all, wanted_dependencies, wanted_components,
}

module _ {W S V C : Type 0} (env : Env W S) (deps : DependencyEnv W S V C) where
  -- The conditions of a package that is installed.
  abbrev pub IsRunning : ReconciledPackage S → Type 0
  IsRunning p =
      (env.condition_api.is_status_condition_true p.conditions failed ≡ false)
      × (env.condition_api.is_status_condition_true p.conditions ready ≡ true)

  -- The server has had the package, with the wanted values or having taken them, and it was running.
  pub data IsInstalled (wanted : Wanted) : Type 0 where
    as_found :
        (w : W) (p : ReconciledPackage S)
        → env.api.get_package w wanted.is_namespace_scoped wanted.name wanted.namespace ≡ found p
        → deps.same_values wanted.values p ≡ true
        → IsRunning p
        → IsInstalled wanted
    as_updated :
        (w w' : W) (p p' : ReconciledPackage S)
        → env.api.get_package w wanted.is_namespace_scoped wanted.name wanted.namespace ≡ found p
        → env.api.update_values w p wanted.values ≡ (w', ok p')
        → IsRunning p'
        → IsInstalled wanted

  -- The dependencies and the components of the manifest are installed, for the package.
  abbrev pub RequiredAreInstalled : PackageManifest → ReconciledPackage S → Type 0
  RequiredAreInstalled m pkg =
      All
        (λ (d : Dependency).
          IsInstalled
            (record { is_namespace_scoped = false; name = d.name; namespace = ""; values = none }))
        m.dependencies
      × All
          (λ (cmp : Component). IsInstalled (record {
            is_namespace_scoped = true;
            name = component_name pkg.name cmp;
            namespace = if str_eq pkg.namespace "" then m.default_namespace else pkg.namespace;
            values = some (as_package_values cmp.values);
          }))
          m.components

  -- No required package has failed or is waited for.
  abbrev pub IsClean : Required W → Type 0
  IsClean s = (s.failed_names ≡ []) × (s.waiting_for ≡ [])

  no_more : (xs : List String) (x : String) {ℓ : Type 0} → xs ++ x ∷ [] ≡ [] → ℓ
  no_more xs x e = let (_, f) = append-eq-nil xs (x ∷ []) e in cc f

  judge-IsClean :
      (name : String) (p : ReconciledPackage S) (s : Required W)
      → IsClean (judge env.api env.condition_api deps name p s)
      → IsClean s × IsRunning p
  unfolding judge
  judge-IsClean name p s clean =
      elim (Bool-cases (env.condition_api.is_status_condition_true p.conditions failed)) [
        | inl failing ↦ no_more s.failed_names name (rw (failing, judge) at clean).0
        | inr not_failing ↦
            elim (Bool-cases (env.condition_api.is_status_condition_true p.conditions ready)) [
              | inl running ↦ (rw (not_failing, running, judge) at clean, (not_failing, running))
              | inr not_running ↦
                  no_more s.waiting_for name (rw (not_failing, not_running, judge) at clean).1
            ]
      ]

  owning-IsClean :
      (name : String) (o : Option OwnedResourceRef) (s : Required W)
      → IsClean (owning env.api env.condition_api deps name o s)
      → IsClean s × ((owning env.api env.condition_api deps name o s).world ≡ s.world)
  owning-IsClean name none s clean = no_more s.failed_names name clean.0
  owning-IsClean name (some ref) s clean = (clean, refl)

  after_update-IsClean :
      (name : String) (p : ReconciledPackage S) (reply : W × Result String (ReconciledPackage S))
      (s : Required W)
      → IsClean (after_update env.api env.condition_api deps name p reply s)
      → IsClean s × ((w : W) × (p' : ReconciledPackage S) × (reply ≡ (w, ok p')) × IsRunning p')
  after_update-IsClean name p (w, ok p') s clean =
      let (before, running) = judge-IsClean name p' (record s { world = w }) clean in
      (before, (w, p', refl, running))
  after_update-IsClean name p (w, err e) s clean =
      no_more s.failed_names name
        (judge-IsClean name p (record s { world = w; failed_names = s.failed_names ++ name ∷ [] })
          clean).0.0

  handle_found-IsInstalled :
      (wanted : Wanted) (p : ReconciledPackage S) (s : Required W)
      → env.api.get_package s.world wanted.is_namespace_scoped wanted.name wanted.namespace
        ≡ found p
      → IsClean (handle_found env.api env.condition_api deps wanted p s)
      → IsClean s × IsInstalled wanted
  unfolding handle_found
  handle_found-IsInstalled wanted p s exists clean =
      let o = deps.owned_ref p in
      let s' : Required W = owning env.api env.condition_api deps wanted.name o s in
      elim (Bool-cases (deps.same_values wanted.values p)) [
        | inl same ↦
            let (clean', running) =
              judge-IsClean wanted.name p s' (rw (same, handle_found) at clean) in
            ((owning-IsClean wanted.name o s clean').0, as_found s.world p exists same running)
        | inr other ↦
            let (clean', (w, p', updated, running)) =
              after_update-IsClean wanted.name p (env.api.update_values s'.world p wanted.values) s'
                (rw (other, handle_found) at clean) in
            let (before, same_world) = owning-IsClean wanted.name o s clean' in
            (before, as_updated s.world w p p' exists (rw same_world at updated) running)
      ]

  by_reply :
      (wanted : Wanted) (s t : Required W) (reply : Reply (ReconciledPackage S))
      → env.api.get_package s.world wanted.is_namespace_scoped wanted.name wanted.namespace ≡ reply
      → handle_required_package env.api env.condition_api deps wanted s ≡ ok t
      → IsClean t
      → IsClean s × IsInstalled wanted
  unfolding handle_required_package
  by_reply wanted s t not_found f e clean =
      let is_t = ok-injective (rw (f, handle_required_package) at e) in
      no_more s.waiting_for wanted.name (subst IsClean (sym is_t) clean).1
  by_reply wanted s t (get_failed m) f e clean = cc (rw (f, handle_required_package) at e)
  by_reply wanted s t (found p) f e clean =
      let is_t = ok-injective (rw (f, handle_required_package) at e) in
      handle_found-IsInstalled wanted p s f (subst IsClean (sym is_t) clean)

  pub handle_all-AreInstalled :
      (ws : List Wanted) (s t : Required W)
      → handle_all env.api env.condition_api deps ws s ≡ (t, none)
      → IsClean t
      → IsClean s × All IsInstalled ws
  unfolding handle_all
  handle_all-AreInstalled [] s t e clean =
      let is_t : s ≡ t = cc in (subst IsClean (sym is_t) clean, tt)
  handle_all-AreInstalled (wanted ∷ ws) s t e clean =
      elim (Result-cases (handle_required_package env.api env.condition_api deps wanted s)) [
        | inr (m, f) ↦ cc (rw (f, handle_all) at e)
        | inl (s', f) ↦
            let (clean', rest) = handle_all-AreInstalled ws s' t (rw (f, handle_all) at e) clean in
            let (before, installed) = by_reply wanted s s' _ refl f clean' in
            (before, (installed, rest))
      ]

  pub All-append :
      (xs ys : List Wanted) → All IsInstalled (xs ++ ys) → All IsInstalled xs × All IsInstalled ys
  All-append [] ys h = (tt, h)
  All-append (x ∷ xs) ys (h, hs) = let (left, right) = All-append xs ys hs in ((h, left), right)

  pub dependencies-AreInstalled :
      (ds : List Dependency)
      → All IsInstalled (wanted_dependencies env.api env.condition_api deps ds)
      → All
          (λ (d : Dependency).
            IsInstalled (record {
              is_namespace_scoped = false;
              name = d.name;
              namespace = "";
              values = none;
            }))
          ds
  unfolding wanted_dependencies
  dependencies-AreInstalled [] h = tt
  dependencies-AreInstalled (d ∷ ds) (h, hs) = (h, dependencies-AreInstalled ds hs)

  pub components-AreInstalled :
      (pkg : ReconciledPackage S) (m : PackageManifest) (cmps : List Component)
      → All IsInstalled (wanted_components env.api env.condition_api deps pkg m cmps)
      → All
          (λ (cmp : Component). IsInstalled (record {
            is_namespace_scoped = true;
            name = component_name pkg.name cmp;
            namespace = if str_eq pkg.namespace "" then m.default_namespace else pkg.namespace;
            values = some (as_package_values cmp.values);
          }))
          cmps
  unfolding wanted_components
  components-AreInstalled pkg m [] h = tt
  components-AreInstalled pkg m (cmp ∷ cmps) (h, hs) = (h, components-AreInstalled pkg m cmps hs)
