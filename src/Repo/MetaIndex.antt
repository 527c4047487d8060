-- ===== src/Repo/MetaIndex.antt =====
-- The index that FetchMetaIndex joins from the repositories.
use glasskube.Base.{
  String, ◌≡◌, refl, true, ◌⊎◌, inl, inr, ◌↔◌, Option, none, some, List, [], ◌∷◌, Result, ok, err,
  Bool-cases, IsIn, here, there, arith, str_eq, eq_iff,
}
use glasskube.Assoc.{get, put, string_key, get-put}
use glasskube.Semver.{Semver}
use glasskube.Manager.Types.{Faults}
use glasskube.Repo.Types.{PackageRepoIndexItem, MetaIndexItem, PackageRepository, RepoClients}
use glasskube.Repo.Meta.{lists_package, merged, merge_index, with_repo_index, merge_indices}
use glasskube.Repo.Spec.{OffersIn, OfferedBy}

abbrev pub repos_of : Option MetaIndexItem → List String
repos_of none = []
repos_of (some item) = item.repos

module _ {V C : Type 0} (lib : Semver V C) (clients : RepoClients) (name : String) where
  merged_iff :
      (repo : PackageRepository) (item : PackageRepoIndexItem) (o : Option MetaIndexItem)
      (x : String)
      → IsIn x (merged lib clients repo item o).repos ↔ (IsIn x (repos_of o) ⊎ (repo.name ≡ x))
  unfolding merged
  merged_iff repo item none x = (
    λ h. elim h [ here p ↦ inr p | there l ↦ elim l [ ] ],
    λ s. elim s [ inl l ↦ elim l [ ] | inr p ↦ here p ],
  )
  merged_iff repo item (some meta) x = (
    λ h. elim h [ here p ↦ inr p | there l ↦ inl l ],
    λ s. elim s [ inl l ↦ there l | inr p ↦ here p ],
  )

  put-merged_iff :
      (repo : PackageRepository) (item : PackageRepoIndexItem) (m : List (String × MetaIndexItem))
      (x : String)
      → IsIn x
          (repos_of (get (put m item.name (merged lib clients repo item (get m item.name))) name))
        ↔ (IsIn x (repos_of (get m name)) ⊎ ((str_eq item.name name ≡ true) × (repo.name ≡ x)))
  put-merged_iff repo item m x =
      let entry = merged lib clients repo item (get m item.name) in
      rw (get-put m item.name name entry) (elim (Bool-cases (str_eq item.name name)) [
        | inr other ↦ rw other (λ h. inl h, λ s. elim s [ inl h ↦ h | inr (p, q) ↦ cc ])
        | inl same_name ↦
            let is_name : item.name ≡ name = (eq_iff item.name name).0 same_name in
            let one = merged_iff repo item (get m item.name) x in
            rw same_name (
              λ h. elim (one.0 h) [ inl l ↦ inl (rw is_name at l) | inr p ↦ inr (refl, p) ],
              λ s. one.1 (elim s [ inl l ↦ inl (rw is_name l) | inr (t, p) ↦ inr p ]),
            )
      ])

  -- The repositories of the entry at `name`, after the packages of one index.
  merge_index_iff :
      (repo : PackageRepository) (items : List PackageRepoIndexItem)
      (m : List (String × MetaIndexItem)) (x : String)
      → IsIn x (repos_of (get (merge_index lib clients repo items m) name))
        ↔ (IsIn x (repos_of (get m name)) ⊎ ((lists_package items name ≡ true) × (repo.name ≡ x)))
  unfolding merge_index lists_package
  merge_index_iff repo [] m x = (λ h. inl h, λ s. elim s [ inl h ↦ h | inr (p, q) ↦ cc ])
  merge_index_iff repo (item ∷ items) m x =
      let entry = merged lib clients repo item (get m item.name) in
      let one = put-merged_iff repo item m x in
      let rest = merge_index_iff repo items (put m item.name entry) x in
      (
        λ h. elim (rest.0 h) [
          | inl l ↦ elim (one.0 l) [ inl old ↦ inl old | inr (p, q) ↦ inr (ground (arith, p), q) ]
          | inr (p, q) ↦ inr (ground (arith, p), q)
        ],
        λ s. rest.1 (elim s [
          | inl old ↦ inl (one.1 (inl old))
          | inr (p, q) ↦ elim (Bool-cases (str_eq item.name name)) [
            | inl same_name ↦ inl (one.1 (inr (same_name, q)))
            | inr other ↦ inr (ground (arith, p, other), q)
          ]
        ]),
      )

  with_repo_index_iff :
      (repo : PackageRepository) (reply : Result String (List PackageRepoIndexItem))
      (p : List (String × MetaIndexItem) × Faults) (x : String)
      → IsIn x (repos_of (get (with_repo_index lib clients repo reply p).0 name))
        ↔ (IsIn x (repos_of (get p.0 name)) ⊎ (OffersIn name reply × (repo.name ≡ x)))
  with_repo_index_iff repo (err e) (m, errs) x =
      (λ h. inl h, λ s. elim s [ inl h ↦ h | inr (o, q) ↦ absurd o ])
  with_repo_index_iff repo (ok items) (m, errs) x = merge_index_iff repo items m x

  -- The repositories of the entry at `name`, after the indices of several repositories.
  pub merge_indices_iff :
      (repos : List PackageRepository) (p : List (String × MetaIndexItem) × Faults) (x : String)
      → IsIn x (repos_of (get (merge_indices lib clients repos p).0 name))
        ↔ (IsIn x (repos_of (get p.0 name)) ⊎ OfferedBy clients name repos x)
  unfolding merge_indices
  merge_indices_iff [] p x = (λ h. inl h, λ s. elim s [ inl h ↦ h | inr (r, l, o, q) ↦ elim l [ ] ])
  merge_indices_iff (repo ∷ repos) p x =
      let reply = clients.fetch_package_repo_index repo in
      let one = with_repo_index_iff repo reply p x in
      let rest = merge_indices_iff repos (with_repo_index lib clients repo reply p) x in
      (
        λ h. elim (rest.0 h) [
          | inl l ↦ elim (one.0 l) [ inl old ↦ inl old | inr (o, q) ↦ inr (repo, here refl, o, q) ]
          | inr (r, l, o, q) ↦ inr (r, there l, o, q)
        ],
        λ s. rest.1 (elim s [
          | inl old ↦ inl (one.1 (inl old))
          | inr (r, here is_r, o, q) ↦ inl (one.1 (inr (rw is_r o, rw is_r q)))
          | inr (r, there l, o, q) ↦ inr (r, l, o, q)
        ]),
      )
