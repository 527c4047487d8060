-- ===== src/Listing/Found.antt =====
-- What the loops of fetchRepoAndInstalled of pkg/list/lister.go find for an item of the index.
use mathlib.Core.Path.{subst}
use glasskube.Base.{
  String, ◌≡◌, refl, sym, ap, ◌∙◌, Bool, true, false, ◌&&◌, some, List, [], ◌∷◌, str_eq, eq_iff,
  if◌then◌else◌, Bool-cases, inl, inr, IsIn, here, there, IsIn-if, IsIn-if_later, Option-cases,
}
use glasskube.Manifest.{is_cluster, is_namespaced}
use glasskube.Repo.Types.{MetaIndexItem}
use glasskube.Controller.Types.{ReconciledPackage}
use glasskube.Controller.Finalize.{package_info_name}
use glasskube.Listing.Lister.{
  ListedInfo, Listed, info_named, set_package_info, with_cluster_package, new_result, results,
}

-- The names of cluster packages are unique.
abbrev pub HasUniqueNames : {S : Type 0} → List (ReconciledPackage S) → Type 0
HasUniqueNames {S} pkgs =
    (p q : ReconciledPackage S) → IsIn p pkgs → IsIn q pkgs → p.name ≡ q.name → p ≡ q

pub and_false : (b : Bool) → b && false ≡ false
and_false true = refl
and_false false = refl

module _ {S : Type 0} (escape : String → String) (infos : List ListedInfo) where
  set_package_info-package :
      (res : Listed S) (pkg : ReconciledPackage S)
      → ((set_package_info escape infos res pkg).index_item ≡ res.index_item)
        × ((set_package_info escape infos res pkg).cluster_package ≡ res.cluster_package)
  unfolding set_package_info
  set_package_info-package res pkg =
      elim (Option-cases (info_named infos (package_info_name escape pkg.package_info))) [
        | inl e ↦ rw e (refl, refl)
        | inr (info, e) ↦ rw e (refl, refl)
      ]

  abbrev pub found : List (ReconciledPackage S) → MetaIndexItem → Listed S
  found pkgs item = with_cluster_package escape infos pkgs (new_result escape infos item)

  pub found-item :
      (pkgs : List (ReconciledPackage S)) (item : MetaIndexItem)
      → (found pkgs item).index_item ≡ item
  unfolding with_cluster_package
  found-item [] item = refl
  found-item (pkg ∷ pkgs) item = elim (Bool-cases (str_eq item.item.name pkg.name)) [
    | inl same ↦ rw same ((set_package_info-package _ pkg).0)
    | inr other ↦ rw other (found-item pkgs item)
  ]

  found-here :
      (p : ReconciledPackage S) (pkgs : List (ReconciledPackage S)) (item : MetaIndexItem)
      → str_eq item.item.name p.name ≡ true
      → (found (p ∷ pkgs) item).cluster_package ≡ some p
  unfolding with_cluster_package
  found-here p pkgs item same = rw same ((set_package_info-package _ p).1)

  pub found-some :
      (pkgs : List (ReconciledPackage S)) (item : MetaIndexItem) {pkg : ReconciledPackage S}
      → (found pkgs item).cluster_package ≡ some pkg
      → IsIn pkg pkgs × (item.item.name ≡ pkg.name)
  unfolding with_cluster_package
  found-some [] item e = cc
  found-some (p ∷ pkgs) item e = elim (Bool-cases (str_eq item.item.name p.name)) [
    | inl same ↦
        let is_it : p ≡ _ = cc (found-here p pkgs item same, e) in
        (
          here is_it,
          (eq_iff item.item.name p.name).0 same ∙ ap (λ (q : ReconciledPackage S). q.name) is_it,
        )
    | inr other ↦ let (m, named) = found-some pkgs item (rw other at e) in (there m, named)
  ]

  -- The package of the name, wherever it stands in the list.
  pub some-found :
      (pkgs : List (ReconciledPackage S)) (item : MetaIndexItem) {pkg : ReconciledPackage S}
      → HasUniqueNames pkgs
      → IsIn pkg pkgs
      → item.item.name ≡ pkg.name
      → (found pkgs item).cluster_package ≡ some pkg
  unfolding with_cluster_package
  some-found [] item unique m named = elim m [ ]
  some-found (p ∷ pkgs) item {pkg} unique m named =
      elim (Bool-cases (str_eq item.item.name p.name)) [
        | inl same ↦
            found-here p pkgs item same
            ∙ ap some
                (unique p pkg (here refl) m (sym ((eq_iff item.item.name p.name).0 same) ∙ named))
        | inr other ↦ elim m [
          | here e ↦ cc (
            other,
            (eq_iff item.item.name p.name).1
                (named ∙ ap (λ (q : ReconciledPackage S). q.name) (sym e)),
          )
          | there later ↦
              rw other
                (some-found pkgs item (λ p' q' a b. unique p' q' (there a) (there b)) later named)
        ]
      ]

  abbrev pub cluster_results : List (ReconciledPackage S) → List MetaIndexItem → List (Listed S)
  cluster_results clusters index = results escape infos true false clusters [] index

  results_nil : (clusters : List (ReconciledPackage S)) → cluster_results clusters [] ≡ []
  unfolding results
  results_nil clusters = refl

  results-head :
      (clusters : List (ReconciledPackage S)) (item : MetaIndexItem) (index : List MetaIndexItem)
      → cluster_results clusters (item ∷ index) ≡ (
          if is_cluster item.item.scope
          then found clusters item ∷ cluster_results clusters index
          else cluster_results clusters index)
  unfolding results
  results-head clusters item index = elim (Bool-cases (is_cluster item.item.scope)) [
    | inl cluster ↦ rw cluster refl
    | inr other ↦ rw (other, and_false (is_namespaced item.item.scope)) refl
  ]

  pub results-found :
      (clusters : List (ReconciledPackage S)) (index : List MetaIndexItem) {r : Listed S}
      → IsIn r (cluster_results clusters index)
      → (item : MetaIndexItem) × IsIn item index
        × (is_cluster item.item.scope ≡ true)
        × (found clusters item ≡ r)
  results-found clusters [] m = elim (rw (results_nil clusters) at m) [ ]
  results-found clusters (item ∷ index) {r} m =
      elim (IsIn-if (is_cluster item.item.scope) {y = found clusters item}
        {xs = cluster_results clusters index}
        (subst (IsIn r) (results-head clusters item index) m)) [
          | inl (cluster, e) ↦ (item, here refl, cluster, e)
          | inr later ↦
              let (it, it_in, scoped, e) = results-found clusters index later in
              (it, there it_in, scoped, e)
        ]

  pub found-results :
      (clusters : List (ReconciledPackage S)) (index : List MetaIndexItem) {item : MetaIndexItem}
      → IsIn item index
      → is_cluster item.item.scope ≡ true
      → IsIn (found clusters item) (cluster_results clusters index)
  found-results clusters [] m cluster = elim m [ ]
  found-results clusters (it ∷ index) {item} m cluster =
      subst (IsIn (found clusters item)) (sym (results-head clusters it index)) (elim m [
        | here e ↦
            rw (ap (λ (x : MetaIndexItem). is_cluster x.item.scope) e ∙ cluster)
              (here (ap (found clusters) e))
        | there later ↦
            IsIn-if_later (is_cluster it.item.scope) (found clusters it)
              (found-results clusters index later cluster)
      ])
