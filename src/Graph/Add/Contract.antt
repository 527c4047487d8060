-- ===== src/Graph/Add/Contract.antt =====
-- What DependencyGraph.AddCluster and AddNamespaced promise, through `add`.
use glasskube.Base.{
  String, ◌≡◌, ◌≢◌, refl, Bool, true, false, inl, inr, none, some, List, [], ok, str_eq, Bool-cases,
  Result-cases, eq_iff,
}
use glasskube.Semver.{Semver}
use glasskube.Manifest.{PackageManifest}
use glasskube.Graph.Types.{VertexRef, ref_key, same_ref, Edge, Graph}
use glasskube.Graph.VertexMap.{vertex_at, vertex, modify, delete_vertex, cleared}
use glasskube.Graph.Lookup.{or_new}
use glasskube.Graph.WellFormed.{IsWellFormed, vertex-IsWellFormed, delete_vertex-IsWellFormed}
use glasskube.Graph.Changes.{add, installed_as}
use glasskube.Graph.Add.{targets, declared, loops-targets}
use glasskube.Graph.Add.Effect.{
  IsUntouched, IsUntouched-trans, IsUntouched-vertex, IsUntouched-modify, Added, add_error,
  add_error-parsed, add_parsed,
}

module _ {V C : Type 0} (lib : Semver V C) (g : Graph V C) (ref : VertexRef)
    (manifest : PackageManifest) (version : String) (manual : Bool) (wf : IsWellFormed g) where
  add-Added_empty :
      str_eq version "" ≡ true
      → Added lib g
          (add lib g ref manifest version manual).0
          ref
          manifest
          version
          manual
          (add lib g ref manifest version manual).1
  unfolding add delete_vertex
  add-Added_empty empty =
      let g1 : Graph V C = vertex g ref manifest.name in
      rw (empty, add)
        (record {
          well_formed =
              delete_vertex-IsWellFormed g1 ref (vertex-IsWellFormed g ref manifest.name wf);
          untouched = λ k away.
              IsUntouched-trans g g1 (modify g1 ref cleared) k
                (IsUntouched-vertex g ref k manifest.name)
                (IsUntouched-modify g1 ref k cleared away);
          error = rw empty refl;
          installed = λ nonempty success. absurd (nonempty ((eq_iff version "").0 empty));
        })

  add-Added :
      Added lib g
        (add lib g ref manifest version manual).0
        ref
        manifest
        version
        manual
        (add lib g ref manifest version manual).1
  unfolding add
  add-Added = elim (Bool-cases (str_eq version "")) [
    | inl empty ↦ add-Added_empty empty
    | inr named ↦ elim (Result-cases (lib.new_version version)) [
      | inr (e, bad) ↦
          rw (named, add)
            (rw bad (record {
              well_formed = vertex-IsWellFormed g ref manifest.name wf;
              untouched = λ k away. IsUntouched-vertex g ref k manifest.name;
              error = rw (named, bad) refl;
              installed = λ nonempty success. cc;
            }))
      | inl (v, parsed) ↦
          rw (named, add)
            (rw parsed (
              rw
                (loops-targets lib
                  (modify (vertex g ref manifest.name) ref (installed_as lib v manual)) ref
                  manifest)
                (add_error-parsed lib g ref manifest version manual v wf named parsed _
                  (add_parsed lib g ref manifest v manual wf))))
    ]
  ]

  -- On a well-formed graph, the graph that `add` leaves is well formed, also where it returns with an
  -- error.
  pub add-IsWellFormed : IsWellFormed (add lib g ref manifest version manual).0
  add-IsWellFormed = add-Added.well_formed

  -- On a well-formed graph, whether or not it fails, `add` changes no other vertex that exists; it may
  -- create blank ones.
  pub add-IsUntouched :
      (k : VertexRef)
      → same_ref ref k ≡ false
      → IsUntouched g (add lib g ref manifest version manual).0 k
  add-IsUntouched k away = add-Added.untouched k away

  -- On a well-formed graph, the error of `add` is the first parse error of the version and the declared constraints, in the
  -- order of the manifest, dependencies first; with the empty version there is none.
  pub add_errors : (add lib g ref manifest version manual).1 ≡ add_error lib ref manifest version
  add_errors = add-Added.error

  -- On a well-formed graph, a successful `add` of a nonempty version installs exactly the parsed version, the manual flag and
  -- the edges that the manifest declares, and keeps the name of a vertex that was there.
  pub add_installs :
      version ≢ ""
      → (add lib g ref manifest version manual).1 ≡ none
      → (v : V) × (es : List (VertexRef × Edge C)) × (lib.new_version version ≡ ok v)
        × (declared lib [] (targets ref manifest) ≡ ok es)
        × (vertex_at (add lib g ref manifest version manual).0 ref
            ≡ some (record {
              package_name = (or_new (vertex_at g ref) manifest.name).package_name;
              version = some v;
              manual = manual;
              edges = es;
            }))
  add_installs nonempty success = add-Added.installed nonempty success
