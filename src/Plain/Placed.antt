-- ===== src/Plain/Placed.antt =====
-- What the loop over the objects of a plain manifest has found out about those it has placed:
-- reconcilePlainManifest of internal/manifest/plain/adapter.go.
use mathlib.Core.Path.{subst}
use glasskube.Base.{
  String, ◌≡◌, ◌≢◌, refl, sym, ap, ◌∙◌, Bool, true, false, ◌&&◌, ◌||◌, List, str_eq, eq_iff, ok,
  Bool-cases, inl, inr, IsIn, here, there, arith,
}
use glasskube.Patch.Target.{GroupVersionKind, same_gvk}
use glasskube.Plain.Objects.{
  Object, Kinds, Placed, is_default_namespace, in_default, place, place_default, namespace_object,
}

or_left : {a b : Bool} (c : Bool) → a ≡ true → b ≡ true → (a && b || c) ≡ true
or_left c p q = rw (p, q) refl

or_right : (a b : Bool) {c : Bool} → c ≡ true → (a && b || c) ≡ true
or_right a b p = ground arith

module _ {B : Type 0} (kinds : Kinds B) where
  abbrev pub IsNamespaced : Object B → Type 0
  IsNamespaced obj = kinds.is_object_namespaced obj.gvk ≡ ok true

  -- Every object that is namespaced has a namespace, and if that is the default one for any, the
  -- object of the default namespace is there.
  abbrev pub HaveNamespaces : String → List (Object B) → Type 0
  HaveNamespaces name objs =
      ((obj : Object B) → IsIn obj objs → IsNamespaced obj → obj.namespace ≢ "")
      × ((obj : Object B)
          → IsIn obj objs
          → IsNamespaced obj
          → obj.namespace ≡ name
          → (n : Object B) × IsIn n objs × (is_default_namespace kinds name n ≡ true))

  -- A namespace is no namespaced object.
  abbrev pub NamespacesAreGlobal : Type 0
  NamespacesAreGlobal = kinds.is_object_namespaced kinds.namespace_gvk ≡ ok false

  same_gvk-eq : (a b : GroupVersionKind) → same_gvk a b ≡ true → a ≡ b
  same_gvk-eq a b e =
      ground (arith, eq_iff a.group b.group, eq_iff a.version b.version, eq_iff a.kind b.kind)

  same_gvk_refl : (a : GroupVersionKind) → same_gvk a a ≡ true
  same_gvk_refl a =
      ground (arith, eq_iff a.group a.group, eq_iff a.version a.version, eq_iff a.kind a.kind)

  pub default_namespace-global :
      (name : String) (obj : Object B)
      → NamespacesAreGlobal
      → is_default_namespace kinds name obj ≡ true
      → ¬ IsNamespaced obj
  unfolding is_default_namespace
  default_namespace-global name obj global is_default namespaced =
      let same : same_gvk obj.gvk kinds.namespace_gvk ≡ true = ground arith in
      let is_gvk = same_gvk-eq obj.gvk kinds.namespace_gvk same in
      cc (global, namespaced, ap kinds.is_object_namespaced is_gvk)

  pub namespace_object-default :
      (name : String) → is_default_namespace kinds name (namespace_object kinds name) ≡ true
  unfolding is_default_namespace
  namespace_object-default name =
      rw (same_gvk_refl kinds.namespace_gvk, (eq_iff name name).1 refl) refl

  -- What the loop has found out about the objects it has placed.
  abbrev pub ArePlaced : String → Placed B → Type 0
  ArePlaced name placed =
      ((obj : Object B) → IsIn obj placed.objects → IsNamespaced obj → obj.namespace ≢ "")
      × ((obj : Object B)
          → IsIn obj placed.objects
          → IsNamespaced obj
          → obj.namespace ≡ name
          → placed.is_required ≡ true)
      × (placed.is_in_list ≡ true
          → (n : Object B) × IsIn n placed.objects × (is_default_namespace kinds name n ≡ true))

  pub in_default-gvk :
      (name : String) (b : Bool) (obj : Object B) → (in_default kinds name b obj).gvk ≡ obj.gvk
  in_default-gvk name b obj = elim (Bool-cases (b && str_eq obj.namespace "")) [
    | inl sets ↦ rw sets refl
    | inr keeps ↦ rw keeps refl
  ]

  in_default-namespace :
      (name : String) (obj : Object B) → name ≢ "" → (in_default kinds name true obj).namespace ≢ ""
  in_default-namespace name obj named empty = elim (Bool-cases (str_eq obj.namespace "")) [
    | inl sets ↦ named (rw sets at empty)
    | inr keeps ↦ cc (keeps, (eq_iff obj.namespace "").1 (rw keeps at empty))
  ]

  pub place-ArePlaced :
      (name : String) (obj : Object B) (rest : Placed B)
      → ¬ IsNamespaced obj
      → is_default_namespace kinds name obj ≡ true
      → ArePlaced name rest
      → ArePlaced name (place kinds obj false true rest)
  place-ArePlaced name obj rest global is_default (filled, required, found) = (
    λ o m namespaced. elim m [
      | here e ↦ elim (global (subst IsNamespaced (sym e) namespaced)) [ ]
      | there later ↦ filled o later namespaced
    ],
    λ o m namespaced e'. elim m [
      | here e ↦ elim (global (subst IsNamespaced (sym e) namespaced)) [ ]
      | there later ↦ required o later namespaced e'
    ],
    λ e. (obj, here refl, is_default),
  )

  in_default-IsNamespaced :
      (name : String) (obj : Object B) (b : Bool)
      → kinds.is_object_namespaced obj.gvk ≡ ok b
      → IsNamespaced (in_default kinds name b obj)
      → b ≡ true
  in_default-IsNamespaced name obj b is_b namespaced =
      cc (is_b, namespaced, ap kinds.is_object_namespaced (in_default-gvk name b obj))

  pub place_default-ArePlaced :
      (name : String) (obj : Object B) (b : Bool) (rest : Placed B)
      → name ≢ ""
      → kinds.is_object_namespaced obj.gvk ≡ ok b
      → ArePlaced name rest
      → ArePlaced name (place_default kinds name obj rest b)
  place_default-ArePlaced name obj b rest named is_b (filled, required, found) =
      let head_true = λ (o : Object B) (e : in_default kinds name b obj ≡ o) (n : IsNamespaced o).
        in_default-IsNamespaced name obj b is_b (subst IsNamespaced (sym e) n) in
      (
        λ o m namespaced empty. elim m [
          | here e ↦
              subst (λ (c : Bool). (in_default kinds name c obj).namespace ≢ "")
                (sym (head_true o e namespaced)) (in_default-namespace name obj named)
                (ap (λ (x : Object B). x.namespace) e ∙ empty)
          | there later ↦ filled o later namespaced empty
        ],
        λ o m namespaced is_name. elim m [
          | here e ↦ or_left rest.is_required (head_true o e namespaced) (
              (eq_iff (in_default kinds name b obj).namespace name).1
                (ap (λ (x : Object B). x.namespace) e ∙ is_name))
          | there later ↦
              or_right b (str_eq (in_default kinds name b obj).namespace name)
                (required o later namespaced is_name)
        ],
        λ e. let (n, n_in, is_default) = found e in (n, there n_in, is_default),
      )
