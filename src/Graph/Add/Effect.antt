-- ===== src/Graph/Add/Effect.antt =====
-- The graph that `add` leaves, on success and on failure.
use glasskube.Base.{
  String, ◌≡◌, ◌≢◌, refl, sym, ◌∙◌, Bool, true, false, ◌⊎◌, inl, inr, Option, none, some, List, [],
  ◌∷◌, arith, Result, ok, err, if◌then◌else◌, str_eq, is_some, Bool-cases, Option-cases,
  Result-cases,
}
use glasskube.Semver.{Semver}
use glasskube.Manifest.{PackageManifest}
use glasskube.Graph.Types.{VertexRef, ref_key, same_ref, same_ref_iff, Edge, Vertex, Graph}
use glasskube.Graph.VertexMap.{vertex_at, vertex, modify, edge, set_edge}
use glasskube.Graph.Lookup.{vertex_at-vertex, vertex_at-modify, or_new}
use glasskube.Graph.WellFormed.{
  IsVertexOf, IsWellFormed, edge-IsWellFormed, vertex-IsWellFormed, modify-IsWellFormed,
  IsVertexOf-no_edges,
}
use glasskube.Graph.Changes.{Outcome, parse_constraint, add_edge, installed_as}
use glasskube.Graph.Add.{Target, targets, declared, add_targets}

module _ {V C : Type 0} where
  -- What a vertex other than the one that is added may become: itself, or a new blank vertex.
  abbrev pub IsUntouched : Graph V C → Graph V C → VertexRef → Type 0
  IsUntouched g h k =
      (vertex_at h k ≡ vertex_at g k)
      ⊎ ((vertex_at g k ≡ none) × (name : String) × (vertex_at h k ≡ some (or_new none name)))

  pub IsUntouched-trans :
      (g h s : Graph V C) (k : VertexRef)
      → IsUntouched g h k
      → IsUntouched h s k
      → IsUntouched g s k
  IsUntouched-trans g h s k (inl p) (inl q) = inl (q ∙ p)
  IsUntouched-trans g h s k (inl p) (inr (missing, name, q)) = inr (sym p ∙ missing, name, q)
  IsUntouched-trans g h s k (inr (missing, name, p)) (inl q) = inr (missing, name, q ∙ p)
  IsUntouched-trans g h s k (inr (missing, name, p)) (inr (gone, name', q)) = cc

  pub IsUntouched-vertex :
      (g : Graph V C) (ref k : VertexRef) (name : String) → IsUntouched g (vertex g ref name) k
  IsUntouched-vertex g ref k name = elim (Bool-cases (same_ref ref k)) [
    | inr away ↦ inl (ground (arith, vertex_at-vertex g ref k name))
    | inl here ↦
        let e : ref ≡ k = (same_ref_iff ref k).0 here in
        let at_k : vertex_at (vertex g ref name) k ≡ some (or_new (vertex_at g k) name) =
          rw (← e) (ground (arith, vertex_at-vertex g ref ref name, same_ref_iff ref ref)) in
        elim (Option-cases (vertex_at g k)) [
          | inl missing ↦ inr (missing, name, rw missing at at_k)
          | inr (v, found) ↦ inl (at_k ∙ rw found refl)
        ]
  ]

  pub IsUntouched-modify :
      (g : Graph V C) (ref k : VertexRef) (f : Vertex V C → Vertex V C)
      → same_ref ref k ≡ false
      → IsUntouched g (modify g ref f) k
  IsUntouched-modify g ref k f away = inl (ground (arith, vertex_at-modify g ref k f))

  -- The vertex `from` after `vertexMap.vertex` at any key, if it was there.
  from-vertex :
      (g : Graph V C) (ref from : VertexRef) (name : String) (v : Vertex V C)
      → vertex_at g from ≡ some v
      → vertex_at (vertex g ref name) from ≡ some v
  from-vertex g ref from name v found = elim (IsUntouched-vertex g ref from name) [
    | inl same ↦ same ∙ found
    | inr (missing, _, _) ↦ cc
  ]

  from-edge :
      (g : Graph V C) (from to : VertexRef) (c : Option C) (v : Vertex V C)
      → vertex_at g from ≡ some v
      → vertex_at (edge g from to c) from ≡ some (set_edge to c v)
  unfolding edge
  from-edge g from to c v found = ground (
    arith,
    vertex_at-modify (vertex g to "") from from (set_edge to c),
    same_ref_iff from from,
    from-vertex g to from "" v found,
  )

  edge-IsUntouched :
      (g : Graph V C) (from to k : VertexRef) (c : Option C)
      → same_ref from k ≡ false
      → IsUntouched g (edge g from to c) k
  unfolding edge
  edge-IsUntouched g from to k c away =
      IsUntouched-trans g (vertex g to "") (edge g from to c) k (IsUntouched-vertex g to k "")
        (IsUntouched-modify (vertex g to "") from k (set_edge to c) away)

module _ {V C : Type 0} (lib : Semver V C) where
  -- What the loops of `add` leave, from a graph in which `from` is installed as `v`.
  pub record Loops (g : Graph V C) (from : VertexRef) (v : Vertex V C)
      (r : Result String (List (VertexRef × Edge C))) (out : Outcome V C) : Type 0 where
    well_formed : IsWellFormed out.0
    untouched : (k : VertexRef) → same_ref from k ≡ false → IsUntouched g out.0 k
    success :
        (es : List (VertexRef × Edge C))
        → r ≡ ok es
        → (out.1 ≡ none) × (vertex_at out.0 from ≡ some (record v { edges = es }))
    failure : (e : String) → r ≡ err e → out.1 ≡ some e

  add_targets-Loops :
      (g : Graph V C) (from : VertexRef) (v : Vertex V C) (ts : List Target)
      → IsWellFormed g
      → is_some v.version ≡ true
      → vertex_at g from ≡ some v
      → Loops g from v (declared lib v.edges ts) (add_targets lib g from ts)
  unfolding add_targets declared add_edge
  add_targets-Loops g from v [] wf installed found = record {
    well_formed = wf;
    untouched = λ k away. inl refl;
    success = λ es h. (refl, ground (arith, found));
    failure = λ e h. cc;
  }
  add_targets-Loops g from v (t ∷ ts) wf installed found =
      elim (Result-cases (parse_constraint lib t.version)) [
        | inr (e, bad) ↦
            rw (bad, add_edge)
              (record {
                well_formed = vertex-IsWellFormed g t.to t.name wf;
                untouched = λ k away. IsUntouched-vertex g t.to k t.name;
                success = λ es h. cc;
                failure = λ e' h. ground arith;
              })
        | inl (c, good) ↦
            let g1 : Graph V C = vertex g t.to t.name in
            let g2 : Graph V C = edge g1 from t.to c in
            let found1 = from-vertex g t.to from t.name v found in
            let wf2 =
              edge-IsWellFormed g1 from t.to c (ground (arith, found1))
                (vertex-IsWellFormed g t.to t.name wf) in
            let rest =
              add_targets-Loops g2 from (set_edge t.to c v) ts wf2 installed
                (from-edge g1 from t.to c v found1) in
            rw (good, add_edge)
              (record {
                well_formed = rest.well_formed;
                untouched = λ k away.
                    IsUntouched-trans g g2 _ k
                      (IsUntouched-trans g g1 g2 k (IsUntouched-vertex g t.to k t.name)
                        (edge-IsUntouched g1 from t.to k c away))
                      (rest.untouched k away);
                success = rest.success;
                failure = rest.failure;
              })
      ]

  reset-IsVertexOf :
      (g : Graph V C) (v : V) (manual : Bool) (w : Vertex V C)
      → IsVertexOf g (installed_as lib v manual w)
  reset-IsVertexOf g v manual w = IsVertexOf-no_edges g (installed_as lib v manual w) refl

  -- `add` from the graph in which the vertex exists, for a version that the library parses.
  pub add_parsed :
      (g : Graph V C) (ref : VertexRef) (manifest : PackageManifest) (v : V) (manual : Bool)
      → IsWellFormed g
      → Loops
          (modify (vertex g ref manifest.name) ref (installed_as lib v manual))
          ref
          (installed_as lib v manual (or_new (vertex_at g ref) manifest.name))
          (declared lib [] (targets ref manifest))
          (add_targets lib
            (modify (vertex g ref manifest.name) ref (installed_as lib v manual))
            ref
            (targets ref manifest))
  add_parsed g ref manifest v manual wf =
      let g1 : Graph V C = vertex g ref manifest.name in
      add_targets-Loops (modify g1 ref (installed_as lib v manual)) ref _ (targets ref manifest)
        (modify-IsWellFormed g1 ref (installed_as lib v manual)
          (vertex-IsWellFormed g ref manifest.name wf) (λ w found. reset-IsVertexOf _ v manual w))
        refl
        (ground (
          arith,
          vertex_at-modify g1 ref ref (installed_as lib v manual),
          vertex_at-vertex g ref ref manifest.name,
          same_ref_iff ref ref,
        ))

  -- The error of `add`: that of the version, or else the first one of the declared edges.
  abbrev pub declaration_error : Result String (List (VertexRef × Edge C)) → Option String
  declaration_error (ok es) = none
  declaration_error (err e) = some e

  abbrev pub version_error :
      Result String V → Result String (List (VertexRef × Edge C)) → Option String
  version_error (err e) declared_edges = some e
  version_error (ok v) declared_edges = declaration_error declared_edges

  abbrev pub add_error : VertexRef → PackageManifest → String → Option String
  add_error ref manifest version =
      if str_eq version ""
      then none
      else version_error (lib.new_version version) (declared lib [] (targets ref manifest))

  pub record Added (g h : Graph V C) (ref : VertexRef) (manifest : PackageManifest)
      (version : String) (manual : Bool) (e : Option String) : Type 0 where
    pub well_formed : IsWellFormed h
    pub untouched : (k : VertexRef) → same_ref ref k ≡ false → IsUntouched g h k
    pub error : e ≡ add_error ref manifest version
    pub installed :
        version ≢ ""
        → e ≡ none
        → (v : V) × (es : List (VertexRef × Edge C)) × (lib.new_version version ≡ ok v)
          × (declared lib [] (targets ref manifest) ≡ ok es)
          × (vertex_at h ref
              ≡ some (record {
                package_name = (or_new (vertex_at g ref) manifest.name).package_name;
                version = some v;
                manual = manual;
                edges = es;
              }))

  pub add_error-parsed :
      (g : Graph V C) (ref : VertexRef) (manifest : PackageManifest) (version : String)
      (manual : Bool) (v : V)
      → IsWellFormed g
      → str_eq version "" ≡ false
      → lib.new_version version ≡ ok v
      → (out : Outcome V C)
      → Loops
          (modify (vertex g ref manifest.name) ref (installed_as lib v manual))
          ref
          (installed_as lib v manual (or_new (vertex_at g ref) manifest.name))
          (declared lib [] (targets ref manifest))
          out
      → Added g out.0 ref manifest version manual out.1
  add_error-parsed g ref manifest version manual v wf named parsed out loops = record {
    well_formed = loops.well_formed;
    untouched = λ k away.
        let g1 : Graph V C = vertex g ref manifest.name in
        let g2 : Graph V C = modify g1 ref (installed_as lib v manual) in
        IsUntouched-trans g g2 out.0 k
          (IsUntouched-trans g g1 g2 k (IsUntouched-vertex g ref k manifest.name)
            (IsUntouched-modify g1 ref k (installed_as lib v manual) away))
          (loops.untouched k away);
    error =
        rw (named, parsed)
          (elim (Result-cases (declared lib [] (targets ref manifest))) [
            | inl (es, e) ↦ rw e ((loops.success es e).0)
            | inr (x, e) ↦ rw e (loops.failure x e)
          ]);
    installed = λ nonempty success. elim (Result-cases (declared lib [] (targets ref manifest))) [
      | inl (es, e) ↦ (v, es, parsed, e, (loops.success es e).1)
      | inr (x, e) ↦ absurd (ground (arith, loops.failure x e))
    ];
  }
