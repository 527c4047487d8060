-- ===== src/Manager/Covered.antt =====
-- The packages that the graphs of the dependency manager speak of: every vertex stands for one of a
-- list of packages, by its key and the name of its package.
use glasskube.Base.{
  String, ◌≡◌, refl, sym, ap, ◌∙◌, Bool, true, Option, none, some, List, [], ◌∷◌, arith, str_eq,
  is_some, Bool-cases, Option-cases, Result-cases, inl, inr, IsIn, here, there,
}
use mathlib.Core.Path.{subst}
use glasskube.Assoc.{get, put}
use glasskube.Semver.{Semver}
use glasskube.Manifest.{PackageManifest}
use glasskube.Graph.Types.{
  PackageRef, VertexRef, ref_key, same_ref, same_ref_iff, Edge, Vertex, Graph,
}
use glasskube.Graph.VertexMap.{
  vertex_at, vertex, modify, edge, set_edge, cleared, delete_vertex, package_name_at,
}
use glasskube.Graph.Lookup.{vertex_at-vertex, vertex_at-modify, or_new}
use glasskube.Graph.WellFormed.{IsWellFormed}
use glasskube.Graph.Queries.{ref_of, package_ref, edge_refs, dependencies}
use glasskube.Graph.Changes.{parse_constraint, add_edge, add, installed_as}
use glasskube.Graph.Add.{Target, targets, add_targets, loops-targets}

-- The vertex of every edge is the one of its key.
abbrev AreLinked : {C : Type 0} → List (VertexRef × Edge C) → Type 0
AreLinked [] = Unit {0}
AreLinked ((ref, e) ∷ es) = (e.vertex ≡ ref) × AreLinked es

AreLinked-put :
    {C : Type 0} (es : List (VertexRef × Edge C)) (to : VertexRef) (e : Edge C)
    → e.vertex ≡ to
    → AreLinked es
    → AreLinked (put es to e)
unfolding put
AreLinked-put [] to e same_to linked = (same_to, tt)
AreLinked-put ((ref, d) ∷ es) to e same_to (first, linked) = elim (Bool-cases (same_ref ref to)) [
  | inl is_to ↦ rw is_to (same_to ∙ sym ((same_ref_iff ref to).0 is_to), linked)
  | inr other ↦ rw other (first, AreLinked-put es to e same_to linked)
]

module _ {V C : Type 0} (packages : List PackageRef) where
  abbrev IsCoveredVertex : VertexRef → Vertex V C → Type 0
  IsCoveredVertex k v = IsIn (package_ref k v.package_name) packages × AreLinked v.edges

  -- Every vertex is of one of the packages.
  abbrev pub IsCovered : Graph V C → Type 0
  IsCovered g = (k : VertexRef) (v : Vertex V C) → vertex_at g k ≡ some v → IsCoveredVertex k v

  vertex-IsCovered :
      (g : Graph V C) (to : VertexRef) (name : String)
      → IsIn (package_ref to name) packages
      → IsCovered g
      → IsCovered (vertex g to name)
  vertex-IsCovered g to name listed covered k v found = elim (Bool-cases (same_ref to k)) [
    | inr away ↦ covered k v (sym (rw away at (vertex_at-vertex g to k name)) ∙ found)
    | inl here_k ↦
        let is_k = (same_ref_iff to k).0 here_k in
        let at_k = rw here_k at (vertex_at-vertex g to k name) in
        elim (Option-cases (vertex_at g to)) [
          | inr (w, there_w) ↦
              let w_is : w ≡ v = cc (rw there_w at at_k, found) in
              covered k v
                (ap (vertex_at g) (sym is_k) ∙ there_w ∙ ap (λ (x : Vertex V C). some x) w_is)
          | inl missing ↦
              let new_is : or_new none name ≡ v = cc (rw missing at at_k, found) in
              subst (IsCoveredVertex k) new_is
                (subst (λ (r : VertexRef). IsIn (package_ref r name) packages) is_k listed, tt)
        ]
  ]

  modify-IsCovered :
      (g : Graph V C) (ref : VertexRef) (f : Vertex V C → Vertex V C)
      → ((v : Vertex V C) → IsCoveredVertex ref v → IsCoveredVertex ref (f v))
      → IsCovered g
      → IsCovered (modify g ref f)
  modify-IsCovered g ref f keeps covered k v found = elim (Bool-cases (same_ref ref k)) [
    | inr away ↦ covered k v (sym (rw away at (vertex_at-modify g ref k f)) ∙ found)
    | inl here_k ↦
        let is_k = (same_ref_iff ref k).0 here_k in
        let at_k = rw here_k at (vertex_at-modify g ref k f) in
        elim (Option-cases (vertex_at g ref)) [
          | inl missing ↦ cc (rw missing at at_k, found)
          | inr (w, there_w) ↦
              let w_is : f w ≡ v = cc (rw there_w at at_k, found) in
              subst (λ (x : Vertex V C). IsCoveredVertex k x) w_is
                (subst (λ (r : VertexRef). IsCoveredVertex r (f w)) is_k
                  (keeps w (covered ref w there_w)))
        ]
  ]

  -- Where `to` exists, an edge to it creates no vertex.
  vertex-same :
      (g : Graph V C) (to : VertexRef) (name : String)
      → is_some (vertex_at g to) ≡ true
      → vertex g to name ≡ g
  unfolding vertex
  vertex-same g to name exists = elim (Option-cases (vertex_at g to)) [
    | inl missing ↦ cc (rw missing at exists)
    | inr (v, found) ↦ rw (found, vertex) refl
  ]

  edge-IsCovered :
      (g : Graph V C) (from to : VertexRef) (c : Option C)
      → is_some (vertex_at g to) ≡ true
      → IsCovered g
      → IsCovered (edge g from to c)
  unfolding edge
  edge-IsCovered g from to c exists covered = rw (vertex-same g to "" exists) (
      modify-IsCovered g from (set_edge to c)
        (λ v (listed, linked).
          (listed, AreLinked-put v.edges to (record { constraint = c; vertex = to }) refl linked))
        covered)

  created :
      (g : Graph V C) (to : VertexRef) (name : String)
      → is_some (vertex_at (vertex g to name) to) ≡ true
  created g to name = ground (arith, vertex_at-vertex g to to name, same_ref_iff to to)

  module _ (lib : Semver V C) where
    add_targets-IsCovered :
        (g : Graph V C) (from : VertexRef) (ts : List Target)
        → ((t : Target) → IsIn t ts → IsIn (package_ref t.to t.name) packages)
        → IsCovered g
        → IsCovered (add_targets lib g from ts).0
    unfolding add_targets add_edge
    add_targets-IsCovered g from [] listed covered = covered
    add_targets-IsCovered g from (t ∷ ts) listed covered =
        let covered' = vertex-IsCovered g t.to t.name (listed t (here refl)) covered in
        elim (Result-cases (parse_constraint lib t.version)) [
          | inr (e, bad) ↦ rw (bad, add_edge) covered'
          | inl (c, good) ↦
              rw (good, add_edge)
                (add_targets-IsCovered (edge (vertex g t.to t.name) from t.to c) from ts
                  (λ u m. listed u (there m))
                  (edge-IsCovered (vertex g t.to t.name) from t.to c (created g t.to t.name)
                    covered'))
        ]

    -- A graph that covers the package and what its manifest declares still does so after `add`.
    pub add-IsCovered :
        (g : Graph V C) (ref : VertexRef) (manifest : PackageManifest) (version : String)
        (manual : Bool)
        → IsIn (package_ref ref manifest.name) packages
        → ((t : Target) → IsIn t (targets ref manifest) → IsIn (package_ref t.to t.name) packages)
        → IsCovered g
        → IsCovered (add lib g ref manifest version manual).0
    unfolding add delete_vertex
    add-IsCovered g ref manifest version manual listed declares covered =
        let covered' = vertex-IsCovered g ref manifest.name listed covered in
        elim (Bool-cases (str_eq version "")) [
          | inl empty ↦
              rw (empty, add)
                (modify-IsCovered (vertex g ref manifest.name) ref cleared
                  (λ v (named, linked). (named, tt)) covered')
          | inr named ↦ elim (Result-cases (lib.new_version version)) [
            | inr (e, bad) ↦ rw (named, add) (rw bad covered')
            | inl (v, parsed) ↦
                rw (named, add)
                  (rw parsed (
                    rw
                      (loops-targets lib
                        (modify (vertex g ref manifest.name) ref (installed_as lib v manual)) ref
                        manifest)
                      (add_targets-IsCovered
                        (modify (vertex g ref manifest.name) ref (installed_as lib v manual)) ref
                        (targets ref manifest) declares
                        (modify-IsCovered (vertex g ref manifest.name) ref
                          (installed_as lib v manual) (λ w (named', linked). (named', tt))
                          covered'))))
          ]
        ]

  named_at :
      (g : Graph V C) (ref : VertexRef) (v : Vertex V C)
      → vertex_at g ref ≡ some v
      → package_name_at g ref ≡ v.package_name
  named_at g ref v found =
      ap (λ (o : Option (Vertex V C)). elim o [ some w ↦ w.package_name | none ↦ "" ]) found

  edge_refs-IsIn :
      (g : Graph V C) (es : List (VertexRef × Edge C)) (dep : PackageRef)
      → IsCovered g
      → AreLinked es
      → ((r : VertexRef) → is_some (get es r) ≡ true → is_some (vertex_at g r) ≡ true)
      → IsIn dep (edge_refs g es)
      → IsIn dep packages
  unfolding edge_refs get
  edge_refs-IsIn g [] dep covered linked present m = elim m [ ]
  edge_refs-IsIn g ((ref, e) ∷ es) dep covered (to_ref, linked) present m = elim m [
    | there later ↦
        edge_refs-IsIn g es dep covered linked (λ r there_r. present r (ground (arith, there_r)))
          later
    | here is_dep ↦
        let exists = present ref (ground (arith, same_ref_iff ref ref)) in
        elim (Option-cases (vertex_at g ref)) [
          | inl missing ↦ cc (rw missing at exists)
          | inr (v, found) ↦
              subst (λ (d : PackageRef). IsIn d packages)
                (ap (λ (n : String). package_ref ref n)
                    (sym (ap (package_name_at g) to_ref ∙ named_at g ref v found))
                  ∙ is_dep)
                (covered ref v found).0
        ]
  ]

  -- The dependencies in a graph that covers its packages are of these packages.
  pub dependencies-IsIn :
      (g : Graph V C) (name namespace : String) (dep : PackageRef)
      → IsWellFormed g
      → IsCovered g
      → IsIn dep (dependencies g name namespace)
      → IsIn dep packages
  unfolding dependencies
  dependencies-IsIn g name namespace dep wf covered m =
      elim (Option-cases (vertex_at g (ref_of name namespace))) [
        | inl missing ↦ elim (rw (missing, dependencies) at m) [ ]
        | inr (v, found) ↦
            edge_refs-IsIn g v.edges dep covered (covered (ref_of name namespace) v found).1
              (λ r there_r. elim (Option-cases (get v.edges r)) [
                | inl none_r ↦ cc (rw none_r at there_r)
                | inr (e, at_r) ↦ (wf.at (ref_of name namespace) v found).present r e at_r
              ])
              (rw (found, dependencies) at m)
      ]
