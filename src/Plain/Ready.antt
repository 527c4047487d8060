-- ===== src/Plain/Ready.antt =====
-- When the adapter for plain manifests reports that a package is ready: Reconcile of
-- internal/manifest/plain/adapter.go.
use mathlib.Core.Path.{subst}
use glasskube.Base.{
  String, ◌≡◌, ◌↔◌, refl, sym, ap, ◌∙◌, true, none, some, arith, Option-cases, List, [], ◌∷◌,
  Result, ok, err, bind-eq-ok, Bool-cases, inl, inr, IsIn, here, there,
}
use glasskube.Base.Int.{ℤ, pos, negsuc, ltb_ℤ, ◌≤ℤ◌}
use glasskube.Manifest.{PackageManifest}
use glasskube.Owners.OwnedResources.{OwnedResourceRef}
use glasskube.Controller.Adapters.{ReconcileResult, ResultKind, ready_result, failed_result}
use glasskube.Plain.Objects.{Object, PlainError}
use glasskube.Plain.Adapter.{
  Cluster, Replicas, PlainPackage, is_workload, is_ready, same_ℤ, error_of, not_ready, result_of,
  reconcile_plain, reconcile_manifests, and_then,
}

abbrev kind_of : Result PlainError ReconcileResult → ResultKind
kind_of (err e) = failed_result
kind_of (ok r) = r.kind

abbrev owned_of : Result PlainError ReconcileResult → List OwnedResourceRef
owned_of (err e) = []
owned_of (ok r) = r.owned_resources

-- The ready replicas are as many as the spec wants, or at least one where it names no number.
abbrev pub IsSatisfied : Replicas → Type 0
IsSatisfied r =
    ((n : ℤ) → r.specified ≡ some n → r.ready ≡ n) × (r.specified ≡ none → pos 1 ≤ℤ r.ready)

same_ℤ-eq : (a b : ℤ) → same_ℤ a b ≡ true → a ≡ b
same_ℤ-eq (pos m) (pos n) e = let same : m ≡ n = ground (arith, e) in ap pos same
same_ℤ-eq (pos m) (negsuc n) e = absurd (ground (arith, e))
same_ℤ-eq (negsuc m) (pos n) e = absurd (ground (arith, e))
same_ℤ-eq (negsuc m) (negsuc n) e = let same : m ≡ n = ground (arith, e) in ap negsuc same

same_ℤ_refl : (a : ℤ) → same_ℤ a a ≡ true
same_ℤ_refl (pos n) = ground arith
same_ℤ_refl (negsuc n) = ground arith

positive : (a : ℤ) → ltb_ℤ (pos 0) a ≡ true → pos 1 ≤ℤ a
positive (pos n) e = ground (arith, e)
positive (negsuc n) e = ground (arith, e)

positive-ltb : (a : ℤ) → pos 1 ≤ℤ a → ltb_ℤ (pos 0) a ≡ true
positive-ltb (pos n) h = ground (arith, h)
positive-ltb (negsuc n) h = ground (arith, h)

is_ready-IsSatisfied : (r : Replicas) → is_ready r ≡ true → IsSatisfied r
unfolding is_ready
is_ready-IsSatisfied r e = (
  λ n specified. same_ℤ-eq r.ready n (rw (specified, is_ready) at e),
  λ unnamed. positive r.ready (rw (unnamed, is_ready) at e),
)

IsSatisfied-is_ready : (r : Replicas) → IsSatisfied r → is_ready r ≡ true
unfolding is_ready
IsSatisfied-is_ready r (named, unnamed) = elim (Option-cases r.specified) [
  | inl none_named ↦ rw (none_named, is_ready) (positive-ltb r.ready (unnamed none_named))
  | inr (n, specified) ↦
      rw (specified, is_ready) (ap (λ (a : ℤ). same_ℤ a n) (named n specified) ∙ same_ℤ_refl n)
]

module _ {W B : Type 0} (cluster : Cluster W B) (patch : Object B → Result PlainError (Object B))
    (pkg : PlainPackage) where
  -- The resource can be read and has the replicas that it wants.
  abbrev pub HasReplicas : W → OwnedResourceRef → Type 0
  HasReplicas w ref = (r : Replicas) × (cluster.get_replicas w ref ≡ ok r) × IsSatisfied r

  abbrev pub AreReady : W → List OwnedResourceRef → Type 0
  AreReady w refs =
      (ref : OwnedResourceRef) → IsIn ref refs → is_workload ref.kind ≡ true → HasReplicas w ref

  error_of-ok : {A : Type 0} (r : Result String A) {a : A} → error_of r ≡ ok a → r ≡ ok a
  error_of-ok (ok b) e = cc e
  error_of-ok (err b) e = cc e

  ready_cons :
      (w : W) (ref : OwnedResourceRef) (refs : List OwnedResourceRef)
      → (is_workload ref.kind ≡ true → HasReplicas w ref)
      → AreReady w refs
      → AreReady w (ref ∷ refs)
  ready_cons w ref refs first rest o m workload = elim m [
    | here e ↦
        subst (HasReplicas w) e
          (first (ap (λ (x : OwnedResourceRef). is_workload x.kind) e ∙ workload))
    | there later ↦ rest o later workload
  ]

  not_ready-AreReady :
      (w : W) (refs : List OwnedResourceRef)
      → not_ready cluster patch pkg w refs ≡ ok []
      → AreReady w refs
  unfolding not_ready
  not_ready-AreReady w [] e = λ o m. elim m [ ]
  not_ready-AreReady w (ref ∷ refs) e = elim (Bool-cases (is_workload ref.kind)) [
    | inr other ↦
        ready_cons w ref refs (λ workload. absurd (cc (other, workload)))
          (not_ready-AreReady w refs (rw other at e))
    | inl workload ↦
        let (r, checked, e') =
          bind-eq-ok (error_of (cluster.get_replicas w ref)) _ (rw workload at e) in
        let (refs', rest, last) = bind-eq-ok (not_ready cluster patch pkg w refs) _ e' in
        elim (Bool-cases (is_ready r)) [
          | inl ready ↦
              ready_cons w ref refs
                (λ _. (
                  r,
                  error_of-ok (cluster.get_replicas w ref) checked,
                  is_ready-IsSatisfied r ready,
                ))
                (not_ready-AreReady w refs (rest ∙ (rw ready at last)))
          | inr unready ↦ absurd (cc (rw unready at last))
        ]
  ]

  AreReady-not_ready :
      (w : W) (refs : List OwnedResourceRef)
      → AreReady w refs
      → not_ready cluster patch pkg w refs ≡ ok []
  unfolding not_ready
  AreReady-not_ready w [] ready = refl
  AreReady-not_ready w (ref ∷ refs) ready =
      let rest = AreReady-not_ready w refs (λ o m. ready o (there m)) in
      elim (Bool-cases (is_workload ref.kind)) [
        | inr other ↦ rw (other, rest) refl
        | inl workload ↦
            let (r, got, satisfied) = ready ref (here refl) workload in
            let is_r = IsSatisfied-is_ready r satisfied in rw (workload, got, rest, is_r) refl
      ]

  result_of-kind :
      (w : W) (owned : List OwnedResourceRef) (n : Result PlainError (List OwnedResourceRef))
      (r : ReconcileResult)
      → not_ready cluster patch pkg w owned ≡ n
      → result_of cluster patch pkg owned n ≡ ok r
      → (r.kind ≡ ready_result) ↔ AreReady w r.owned_resources
  result_of-kind w owned (err e) r is_n is_r = absurd (cc is_r)
  result_of-kind w owned (ok []) r is_n is_r = (
    λ _. subst (AreReady w) (ap owned_of is_r) (not_ready-AreReady w owned is_n),
    λ _. sym (ap kind_of is_r),
  )
  result_of-kind w owned (ok (ref ∷ refs)) r is_n is_r = (
    λ is_ready. absurd (cc (is_ready, ap kind_of is_r)),
    λ ready.
        absurd (
          cc
            (is_n, AreReady-not_ready w owned (subst (AreReady w) (sym (ap owned_of is_r)) ready))),
  )

  reported-ready :
      (w w' : W) (reply : Result PlainError (List OwnedResourceRef)) (r : ReconcileResult)
      → and_then cluster patch pkg w reply
          (λ owned. (w, result_of cluster patch pkg owned (not_ready cluster patch pkg w owned)))
        ≡ (w', ok r)
      → (r.kind ≡ ready_result) ↔ AreReady w' r.owned_resources
  reported-ready w w' (err e) r same =
      absurd (cc (ap (λ (x : W × Result PlainError ReconcileResult). x.1) same))
  reported-ready w w' (ok owned) r same =
      subst (λ (v : W). (r.kind ≡ ready_result) ↔ AreReady v r.owned_resources)
        (ap (λ (x : W × Result PlainError ReconcileResult). x.0) same)
        (result_of-kind w owned (not_ready cluster patch pkg w owned) r refl
          (ap (λ (x : W × Result PlainError ReconcileResult). x.1) same))

  -- Where the adapter returns a result, it reports ready exactly if every Deployment and every
  -- StatefulSet among the owned resources can be read and has the replicas that its spec wants, or
  -- at least one where the spec names no number.
  pub reconcile_plain-ready :
      (w w' : W) (m : PackageManifest) (r : ReconcileResult)
      → reconcile_plain cluster patch pkg w m ≡ (w', ok r)
      → (r.kind ≡ ready_result) ↔ AreReady w' r.owned_resources
  unfolding reconcile_plain
  reconcile_plain-ready w w' m r e =
      reported-ready (reconcile_manifests cluster patch pkg w m m.manifests []).0 w'
        (reconcile_manifests cluster patch pkg w m m.manifests []).1 r e
