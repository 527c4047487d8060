-- ===== src/Plain/Namespaces.antt =====
-- The namespaces that the objects of a plain manifest have when they are applied.
use mathlib.Core.Path.{subst}
use glasskube.Base.{
  String, ◌≡◌, ◌≢◌, refl, sym, ap, ◌∙◌, Bool, true, false, not, ◌&&◌, List, [], ◌∷◌, str_eq, eq_iff,
  Result, ok, bind-eq-ok, if◌then◌else◌, Bool-cases, inl, inr, IsIn, here, there, arith,
}
use glasskube.Plain.Objects.{
  Object, Kinds, Placed, set_namespaces, is_default_namespace, default_namespaces, namespace_object,
  with_namespace, place_objects,
}
use glasskube.Plain.Placed.{
  IsNamespaced, HaveNamespaces, NamespacesAreGlobal, ArePlaced, namespace_object-default,
  place-ArePlaced, place_default-ArePlaced, default_namespace-global,
}

in_list : (a b : Bool) → a && not b ≡ false → a ≡ true → b ≡ true
in_list a b e p = ground arith

ok_inj : {E A : Type 0} {a b : A} → ◌≡◌ {A = Result E A} (ok a) (ok b) → a ≡ b
ok_inj e = cc

if_true : {A : Type 0} {b : Bool} (x y : A) → b ≡ true → (if b then x else y) ≡ x
if_true x y e = rw e refl

if_false : {A : Type 0} {b : Bool} (x y : A) → b ≡ false → (if b then x else y) ≡ y
if_false x y e = rw e refl

module _ {B : Type 0} (kinds : Kinds B) where
  default_namespaces-ArePlaced :
      (name : String) (objs : List (Object B)) (placed : Placed B)
      → name ≢ ""
      → NamespacesAreGlobal kinds
      → default_namespaces kinds name objs ≡ ok placed
      → ArePlaced kinds name placed
  unfolding default_namespaces
  default_namespaces-ArePlaced name [] placed named global e =
      subst (ArePlaced kinds name) (ok_inj e) (λ o m. elim m [ ], λ o m. elim m [ ], λ e'. cc e')
  default_namespaces-ArePlaced name (obj ∷ objs) placed named global e =
      elim (Bool-cases (is_default_namespace kinds name obj)) [
        | inl is_default ↦
            let (rest, is_rest, same) =
              bind-eq-ok (default_namespaces kinds name objs) _ (rw is_default at e) in
            subst (ArePlaced kinds name) (ok_inj same) (
              place-ArePlaced kinds name obj rest
                (default_namespace-global kinds name obj global is_default) is_default
                (default_namespaces-ArePlaced name objs rest named global is_rest))
        | inr other ↦
            let (b, is_b, e') = bind-eq-ok (kinds.is_object_namespaced obj.gvk) _ (rw other at e) in
            let (rest, is_rest, same) = bind-eq-ok (default_namespaces kinds name objs) _ e' in
            subst (ArePlaced kinds name) (ok_inj same) (
              place_default-ArePlaced kinds name obj b rest named is_b
                (default_namespaces-ArePlaced name objs rest named global is_rest))
      ]

  set_namespace-eq :
      (namespace : String) (obj : Object B) (b : Bool)
      → kinds.is_object_namespaced obj.gvk ≡ ok b
      → IsNamespaced kinds (if b then record obj { namespace = namespace } else obj)
      → (if b then record obj { namespace = namespace } else obj).namespace ≡ namespace
  set_namespace-eq namespace obj true is_b namespaced = refl
  set_namespace-eq namespace obj false is_b namespaced = cc (is_b, namespaced)

  -- Placed for a package that is namespaced, every namespaced object is in its namespace.
  pub set_namespaces-IsIn :
      (namespace : String) (objs out : List (Object B)) (obj : Object B)
      → set_namespaces kinds namespace objs ≡ ok out
      → IsIn obj out
      → IsNamespaced kinds obj
      → obj.namespace ≡ namespace
  unfolding set_namespaces
  set_namespaces-IsIn namespace [] out obj e m namespaced =
      elim (subst (IsIn obj) (sym (ok_inj e)) m) [ ]
  set_namespaces-IsIn namespace (o ∷ objs) out obj e m namespaced =
      let (b, is_b, e') = bind-eq-ok (kinds.is_object_namespaced o.gvk) _ e in
      let (rest, is_rest, same) = bind-eq-ok (set_namespaces kinds namespace objs) _ e' in
      elim (subst (IsIn obj) (sym (ok_inj same)) m) [
        | here is ↦
            sym (ap (λ (x : Object B). x.namespace) is)
            ∙ set_namespace-eq namespace o b is_b (subst (IsNamespaced kinds) (sym is) namespaced)
        | there later ↦ set_namespaces-IsIn namespace objs rest obj is_rest later namespaced
      ]

  with_namespace-HaveNamespaces :
      (name : String) (placed : Placed B)
      → NamespacesAreGlobal kinds
      → ArePlaced kinds name placed
      → HaveNamespaces kinds name (with_namespace kinds name placed)
  with_namespace-HaveNamespaces name placed global (filled, required, found) =
      elim (Bool-cases (placed.is_required && not placed.is_in_list)) [
        | inl adds ↦
            subst (HaveNamespaces kinds name)
              (sym (if_true (namespace_object kinds name ∷ placed.objects) placed.objects adds))
              (
                λ o m namespaced. elim m [
                  | here e ↦ cc (global, ap (λ (x : Object B). x.gvk) e, namespaced)
                  | there later ↦ filled o later namespaced
                ],
                λ o m namespaced is_name.
                    (namespace_object kinds name, here refl, namespace_object-default kinds name),
              )
        | inr keeps ↦
            subst (HaveNamespaces kinds name)
              (sym (if_false (namespace_object kinds name ∷ placed.objects) placed.objects keeps))
              (
                filled,
                λ o m namespaced is_name. found (
                    in_list placed.is_required placed.is_in_list keeps
                      (required o m namespaced is_name)),
              )
      ]

  -- For a package that is not namespaced, where a default namespace is named and a Namespace is no
  -- namespaced object, the objects are placed so that every namespaced one has a namespace, and where
  -- one is in the default namespace, the Namespace itself is among them.
  pub place_objects-HaveNamespaces :
      (namespace default_namespace plain_namespace : String) (objs out : List (Object B))
      → (if str_eq plain_namespace "" then default_namespace else plain_namespace) ≢ ""
      → NamespacesAreGlobal kinds
      → place_objects kinds false namespace default_namespace plain_namespace objs ≡ ok out
      → HaveNamespaces kinds
          (if str_eq plain_namespace "" then default_namespace else plain_namespace)
          out
  unfolding place_objects
  place_objects-HaveNamespaces namespace default_namespace plain_namespace objs out named global e =
      let name = if str_eq plain_namespace "" then default_namespace else plain_namespace in
      elim (Bool-cases (str_eq name "")) [
        | inl empty ↦ elim (named ((eq_iff name "").0 empty)) [ ]
        | inr full ↦
            let (placed, is_placed, same) =
              bind-eq-ok (default_namespaces kinds name objs) _ (rw full at e) in
            subst (HaveNamespaces kinds name) (ok_inj same) (
              with_namespace-HaveNamespaces name placed global
                (default_namespaces-ArePlaced name objs placed named global is_placed))
      ]
