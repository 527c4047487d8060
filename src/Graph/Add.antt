-- ===== src/Graph/Add.antt =====
-- What `add` makes of a graph: the edges that the manifest declares, and nothing else.
pub mod Effect
pub mod Contract
use glasskube.Base.{
  String, ◌≡◌, refl, sym, ap, ◌∙◌, Option, none, some, List, [], ◌∷◌, ◌++◌, map, arith, Result, ok,
  err, ◌>>=◌,
}
use mathlib.Core.Path.{fun_ext}
use glasskube.Assoc.{put}
use glasskube.Semver.{Semver}
use glasskube.Manifest.{Dependency, Component, PackageManifest}
use glasskube.Graph.Types.{VertexRef, ref_key, Edge, Vertex, Graph}
use glasskube.Graph.Queries.{ref_of}
use glasskube.Graph.Changes.{
  Outcome, and_then, parse_constraint, add_edge, add_dependencies, add_components, component_ref,
}

-- An edge that a manifest declares.
pub record Target : Type 0 where
  pub to : VertexRef
  pub name : String
  pub version : String

abbrev dependency_target : Dependency → Target
dependency_target dep = record { to = ref_of dep.name ""; name = dep.name; version = dep.version }

abbrev component_target : VertexRef → String → Component → Target
component_target ref default_namespace cmp = record {
  to = component_ref ref default_namespace cmp;
  name = cmp.name;
  version = cmp.version;
}

-- The edges that the package `ref` with this manifest has: dependencies, then components.
abbrev pub targets : VertexRef → PackageManifest → List Target
targets ref manifest =
    map dependency_target manifest.dependencies
    ++ map (component_target ref manifest.default_namespace) manifest.components

module _ {V C : Type 0} (lib : Semver V C) where
  -- The edge map that these declarations describe; a later one replaces an earlier one.
  unfoldable pub declared :
      List (VertexRef × Edge C) → List Target → Result String (List (VertexRef × Edge C))
  declared es [] = ok es
  declared es (t ∷ ts) = parse_constraint lib t.version >>= λ c.
      declared (put es t.to (record { constraint = c; vertex = t.to })) ts

  -- The two loops of `add` as one.
  unfoldable pub add_targets : Graph V C → VertexRef → List Target → Outcome V C
  add_targets g from [] = (g, none)
  add_targets g from (t ∷ ts) =
      and_then (add_edge lib g from t.to t.name t.version) (λ g'. add_targets g' from ts)

  and_then_assoc :
      (r : Outcome V C) (f h : Graph V C → Outcome V C)
      → and_then (and_then r f) h ≡ and_then r (λ g. and_then (f g) h)
  and_then_assoc (g, none) f h = refl
  and_then_assoc (g, some e) f h = refl

  add_targets-append :
      (g : Graph V C) (from : VertexRef) (xs ys : List Target)
      → add_targets g from (xs ++ ys)
        ≡ and_then (add_targets g from xs) (λ g'. add_targets g' from ys)
  unfolding add_targets
  add_targets-append g from [] ys = refl
  add_targets-append g from (x ∷ xs) ys =
      rw (and_then_assoc (add_edge lib g from x.to x.name x.version)) (
        ap (and_then (add_edge lib g from x.to x.name x.version))
          (fun_ext (λ g'. add_targets-append g' from xs ys)))

  add_dependencies-targets :
      (g : Graph V C) (from : VertexRef) (deps : List Dependency)
      → add_dependencies lib g from deps ≡ add_targets g from (map dependency_target deps)
  unfolding add_dependencies add_targets
  add_dependencies-targets g from [] = refl
  add_dependencies-targets g from (dep ∷ deps) =
      ap (and_then (add_edge lib g from (ref_of dep.name "") dep.name dep.version))
        (fun_ext (λ g'. add_dependencies-targets g' from deps))

  add_components-targets :
      (g : Graph V C) (from : VertexRef) (ns : String) (cmps : List Component)
      → add_components lib g from ns cmps ≡ add_targets g from (map (component_target from ns) cmps)
  unfolding add_components add_targets
  add_components-targets g from ns [] = refl
  add_components-targets g from ns (cmp ∷ cmps) =
      ap (and_then (add_edge lib g from (component_ref from ns cmp) cmp.name cmp.version))
        (fun_ext (λ g'. add_components-targets g' from ns cmps))

  pub loops-targets :
      (g : Graph V C) (ref : VertexRef) (manifest : PackageManifest)
      → and_then
          (add_dependencies lib g ref manifest.dependencies)
          (λ g2. add_components lib g2 ref manifest.default_namespace manifest.components)
        ≡ add_targets g ref (targets ref manifest)
  loops-targets g ref manifest = rw (add_dependencies-targets g ref manifest.dependencies) (
      ap (and_then (add_targets g ref (map dependency_target manifest.dependencies))) (
        fun_ext
          (λ g2. add_components-targets g2 ref manifest.default_namespace manifest.components))
      ∙ sym (add_targets-append g ref _ _))
