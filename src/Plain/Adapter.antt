-- ===== src/Plain/Adapter.antt =====
-- The rest of internal/manifest/plain/adapter.go, with prefix.go, internal/controller/labels and
-- SetOwnerIfManagedOrNotExists of internal/controller/owners. The API server in the state `W`, the
-- patches of the package, Kustomize and the download of a manifest are parameters. Logs are left out.
use glasskube.Base.{
  ℕ, ◌-◌, String, Bool, true, not, ◌&&◌, ◌||◌, Option, none, some, List, [], ◌∷◌, ◌++◌, length, ltb,
  str_eq, Result, ok, err, ◌>>=◌, if◌then◌else◌,
}
use glasskube.Base.Int.{ℤ, pos, ltb_ℤ}
use glasskube.Manifest.{PackageManifest, PlainManifest, TypedLocalObjectReference}
use glasskube.Owners.OwnedResources.{OwnedResourceRef, add}
use glasskube.Patch.Target.{GroupVersionKind}
use glasskube.Controller.Slices.{take}
use glasskube.Controller.Types.{Reply, found, not_found, get_failed, is_managed}
use glasskube.Controller.Adapters.{ReconcileResult, ready_result, waiting_result}
use glasskube.Plain.Objects.{Object, PlainError, failed, panicked, Kinds, place_objects}

-- The ready replicas of a Deployment or a StatefulSet, and the replicas of its spec.
pub record Replicas : Type 0 where
  pub ready : ℤ
  pub specified : Option ℤ

pub record Cluster (W B : Type 0) : Type 0 where
  pub kinds : Kinds B
  -- The labels of an object that has the name of this one.
  pub get_labels : W → Object B → Reply (List (String × String))
  -- labels.SetManaged, and SetOwner with the package
  pub set_managed_owner : Object B → Result PlainError (Object B)
  -- unstructured.SetNestedField of the annotation of the template
  pub set_spec_hash : String → B → Option B
  -- Patch with client.Apply
  pub apply : W → Object B → W × Option String
  pub get_replicas : W → OwnedResourceRef → Result String Replicas
  pub ref_of : Object B → Result String OwnedResourceRef
  pub fetch_resources : W → String → Result String (List (Object B))
  pub kustomize_objects : List (Object B) → Result String (List (Object B))
  pub parse_group_version : String → Result String (String × String)

-- The package: whether it is namespaced, its namespace, and the hash of its spec.
pub record PlainPackage : Type 0 where
  pub is_namespace_scoped : Bool
  pub namespace : String
  pub spec_hash : Option String

abbrev pub is_workload : String → Bool
is_workload kind = str_eq kind "Deployment" || str_eq kind "StatefulSet"

abbrev pub same_ℤ : ℤ → ℤ → Bool
same_ℤ a b = not (ltb_ℤ a b) && not (ltb_ℤ b a)

-- isReady
unfoldable pub is_ready : Replicas → Bool
is_ready r = elim r.specified [ none ↦ ltb_ℤ (pos 0) r.ready | some n ↦ same_ℤ r.ready n ]

abbrev pub error_of : {A : Type 0} → Result String A → Result PlainError A
error_of (ok a) = ok a
error_of (err e) = err (failed e)

module _ {W B : Type 0} (cluster : Cluster W B) (patch : Object B → Result PlainError (Object B))
    (pkg : PlainPackage) where
  -- IsManagedOrNotExists
  unfoldable pub is_managed_or_not_exists : Reply (List (String × String)) → Result PlainError Bool
  unfolding is_managed
  is_managed_or_not_exists (found labels) = ok (is_managed labels)
  is_managed_or_not_exists not_found = ok true
  is_managed_or_not_exists (get_failed e) = err (failed e)

  -- SetOwnerIfManagedOrNotExists
  unfoldable pub set_owner_if_managed_or_not_exists : W → Object B → Result PlainError (Object B)
  unfolding is_managed_or_not_exists
  set_owner_if_managed_or_not_exists w obj =
      is_managed_or_not_exists (cluster.get_labels w obj) >>= λ should_set_owner.
      if should_set_owner then cluster.set_managed_owner obj else ok obj

  abbrev pub with_body : Object B → Option B → Object B
  with_body obj none = obj
  with_body obj (some body) = record obj { body = body }

  abbrev pub hashed : Object B → Option String → Object B
  hashed obj none = obj
  hashed obj (some hash) = with_body obj (cluster.set_spec_hash hash obj.body)

  -- annotateWithSpecHash, whose errors are only logged.
  unfoldable pub annotate_with_spec_hash : Object B → Object B
  annotate_with_spec_hash obj = if is_workload obj.gvk.kind then hashed obj pkg.spec_hash else obj

  -- The loop that modifies the objects.
  unfoldable pub modify_objects : W → List (Object B) → Result PlainError (List (Object B))
  unfolding set_owner_if_managed_or_not_exists annotate_with_spec_hash
  modify_objects w [] = ok []
  modify_objects w (obj ∷ objs) =
      set_owner_if_managed_or_not_exists w (annotate_with_spec_hash obj) >>= λ owned.
      patch owned >>= λ patched. modify_objects w objs >>= λ rest. ok (patched ∷ rest)

  abbrev pub transitive_gvk :
      TypedLocalObjectReference → Option String → Result PlainError GroupVersionKind
  transitive_gvk res none = ok (record { group = ""; version = ""; kind = res.kind })
  transitive_gvk res (some api_group) =
      error_of (cluster.parse_group_version api_group) >>= λ (group, version).
      ok (record { group = group; version = version; kind = res.kind })

  -- createTransitiveObjects, with createTransitiveObject
  unfoldable pub create_transitive_objects :
      List TypedLocalObjectReference → Result PlainError (List (Object B))
  create_transitive_objects [] = ok []
  create_transitive_objects (res ∷ rs) = transitive_gvk res res.api_group >>= λ gvk.
      create_transitive_objects rs >>= λ objs. ok (
        record { gvk = gvk; name = res.name; namespace = ""; body = cluster.kinds.empty_body }
        ∷ objs)

  -- result[0 : len(result)-n]
  abbrev pub without_last : ℕ → List (Object B) → Result PlainError (List (Object B))
  without_last n objs =
      if ltb (length objs) n then err panicked else ok (take (length objs - n) objs)

  -- prefixAndUpdateReferences
  unfoldable pub prefix_and_update_references :
      PackageManifest → List (Object B) → Result PlainError (List (Object B))
  unfolding create_transitive_objects
  prefix_and_update_references m objs =
      let kustomized = create_transitive_objects m.transitive_resources >>= λ transitive.
      error_of (cluster.kustomize_objects (objs ++ transitive)) >>= λ all.
      without_last (length transitive) all in
      if pkg.is_namespace_scoped then kustomized else ok objs

  abbrev pub applied_ref :
      List OwnedResourceRef
      → Result String OwnedResourceRef
      → Result PlainError (List OwnedResourceRef)
  unfolding add
  applied_ref refs (err e) = err (failed e)
  applied_ref refs (ok ref) = ok (add refs (ref ∷ [])).0

  abbrev pub and_then :
      {A : Type 0}
      → W
      → Result PlainError (List OwnedResourceRef)
      → (List OwnedResourceRef → W × Result PlainError A)
      → W × Result PlainError A
  and_then w (err e) f = (w, err e)
  and_then w (ok refs) f = f refs

  abbrev pub after_apply :
      Option String → List OwnedResourceRef → Object B → Result PlainError (List OwnedResourceRef)
  unfolding add
  after_apply (some e) refs obj = err (failed e)
  after_apply none refs obj = applied_ref refs (cluster.ref_of obj)

  -- The loop that applies the objects.
  unfoldable pub apply_objects :
      W → List (Object B) → List OwnedResourceRef → W × Result PlainError (List OwnedResourceRef)
  unfolding add
  apply_objects w [] refs = (w, ok refs)
  apply_objects w (obj ∷ objs) refs =
      let (w', failure) = cluster.apply w obj in
      and_then w' (after_apply failure refs obj) (apply_objects w' objs)

  -- What is applied for a manifest, before anything is.
  unfoldable pub objects_to_apply :
      W → PackageManifest → PlainManifest → Result PlainError (List (Object B))
  unfolding place_objects modify_objects prefix_and_update_references
  objects_to_apply w m plain = error_of (cluster.fetch_resources w plain.url) >>= λ objs.
      place_objects cluster.kinds pkg.is_namespace_scoped pkg.namespace m.default_namespace
        plain.default_namespace objs
      >>= λ placed. modify_objects w placed >>= λ modified. prefix_and_update_references m modified

  abbrev pub apply_all :
      W → Result PlainError (List (Object B)) → W × Result PlainError (List OwnedResourceRef)
  unfolding apply_objects
  apply_all w (err e) = (w, err e)
  apply_all w (ok objs) = apply_objects w objs []

  -- reconcilePlainManifest
  unfoldable pub reconcile_plain_manifest :
      W → PackageManifest → PlainManifest → W × Result PlainError (List OwnedResourceRef)
  unfolding objects_to_apply apply_objects
  reconcile_plain_manifest w m plain = apply_all w (objects_to_apply w m plain)

  -- The loop over the manifests.
  unfoldable pub reconcile_manifests :
      W
      → PackageManifest
      → List PlainManifest
      → List OwnedResourceRef
      → W × Result PlainError (List OwnedResourceRef)
  unfolding reconcile_plain_manifest
  reconcile_manifests w m [] owned = (w, ok owned)
  reconcile_manifests w m (plain ∷ plains) owned =
      let (w', reply) = reconcile_plain_manifest w m plain in
      and_then w' reply (λ refs. reconcile_manifests w' m plains (owned ++ refs))

  -- The loop over the owned Deployments and StatefulSets: those that are not ready.
  unfoldable pub not_ready : W → List OwnedResourceRef → Result PlainError (List OwnedResourceRef)
  unfolding is_ready
  not_ready w [] = ok []
  not_ready w (ref ∷ refs) =
      let rest = not_ready w refs in
      let checked = error_of (cluster.get_replicas w ref) >>= λ replicas.
      rest >>= λ refs'. ok (if is_ready replicas then refs' else ref ∷ refs') in
      if is_workload ref.kind then checked else rest

  abbrev pub result_of :
      List OwnedResourceRef
      → Result PlainError (List OwnedResourceRef)
      → Result PlainError ReconcileResult
  result_of owned (err e) = err e
  result_of owned (ok []) =
      ok (record { kind = ready_result; message = "manifests reconciled"; owned_resources = owned })
  result_of owned (ok (ref ∷ refs)) =
      ok
        (record { kind = waiting_result; message = "resources not ready"; owned_resources = owned })

  -- Reconcile
  unfoldable pub reconcile_plain : W → PackageManifest → W × Result PlainError ReconcileResult
  unfolding reconcile_manifests not_ready
  reconcile_plain w m =
      let (w', reply) = reconcile_manifests w m m.manifests [] in
      and_then w' reply (λ owned. (w', result_of owned (not_ready w' owned)))
