-- ===== src/Repo/MetaTarget.antt =====
-- FetchMetaIndex: its packages, and the repositories of each.
use glasskube.Base.{
  String, ◌≡◌, refl, ap, ◌∙◌, inl, inr, ◌↔◌, some, List, [], ◌∷◌, Result, ok, err, Bool-cases,
  Option-cases, IsIn, here, there, IsIn-append, IsIn-append_left, IsIn-append_right, arith, str_eq,
  eq_iff,
}
use glasskube.Assoc.{get, put, keys, collect, string_key, get-put}
use glasskube.Semver.{Semver}
use glasskube.Manager.Types.{Faults}
use glasskube.Repo.Types.{PackageRepoIndexItem, MetaIndexItem, PackageRepository, RepoClients}
use glasskube.Repo.Meta.{
  reversed, merged, merge_index, with_repo_index, merge_indices, item_at, fetch_meta_index,
}
use glasskube.Repo.Spec.{Offers, OfferedBy}
use glasskube.Repo.MetaIndex.{merge_indices_iff}

-- What sorting keeps: the elements.
abbrev pub Reorders : {A : Type 0} → (List A → List A) → Type 0
Reorders {A} sort = (xs : List A) (x : A) → IsIn x (sort xs) ↔ IsIn x xs

IsIn-reversed : {A : Type 0} (xs : List A) (x : A) → IsIn x (reversed xs) ↔ IsIn x xs
IsIn-reversed [] x = (λ m. m, λ m. m)
IsIn-reversed (y ∷ ys) x =
    let rest = IsIn-reversed ys x in
    (
      λ m. elim (IsIn-append (reversed ys) m) [
        | inl l ↦ there (rest.0 l)
        | inr (here p) ↦ here p
        | inr (there n) ↦ elim n [ ]
      ],
      λ m. elim m [
        | here p ↦ IsIn-append_right (reversed ys) (here p)
        | there l ↦ IsIn-append_left (y ∷ []) (rest.1 l)
      ],
    )

IsIn-collect :
    {A B : Type 0} (f : A → List B) (xs : List A) (b : B)
    → IsIn b (collect f xs) ↔ ((a : A) × IsIn a xs × IsIn b (f a))
unfolding collect
IsIn-collect f [] b = (λ m. elim m [ ], λ s. elim s.1 [ ])
IsIn-collect f (x ∷ xs) b =
    let rest = IsIn-collect f xs b in
    (
      λ m. elim (IsIn-append (f x) m) [
        | inl l ↦ (x, here refl, l)
        | inr r ↦ let (a, l, n) = rest.0 r in (a, there l, n)
      ],
      λ s.
          let (a, l, n) = s in
          elim l [
            | here p ↦ IsIn-append_left (collect f xs) (rw p n)
            | there later ↦ IsIn-append_right (f x) (rest.1 (a, later, n))
          ],
    )

IsIn-keys :
    {A : Type 0} (m : List (String × A)) (k : String) (a : A) → get m k ≡ some a → IsIn k (keys m)
unfolding get keys
IsIn-keys [] k a e = cc
IsIn-keys ((j, b) ∷ m) k a e = elim (Bool-cases (str_eq j k)) [
  | inl same_key ↦ here ((eq_iff j k).0 same_key)
  | inr other ↦ there (IsIn-keys m k a (rw other at e))
]

-- Every entry stands under the name of its package.
abbrev IsNamed : List (String × MetaIndexItem) → Type 0
IsNamed m = (k : String) (it : MetaIndexItem) → get m k ≡ some it → it.item.name ≡ k

module _ {V C : Type 0} (lib : Semver V C) (clients : RepoClients) where
  merged-name :
      (repo : PackageRepository) (item : PackageRepoIndexItem) (m : List (String × MetaIndexItem))
      → IsNamed m
      → (merged lib clients repo item (get m item.name)).item.name ≡ item.name
  unfolding merged
  merged-name repo item m named = elim (Option-cases (get m item.name)) [
    | inl absent ↦ rw (absent, merged) refl
    | inr (meta, there_is) ↦
        let meta_name = named item.name meta there_is in
        rw (there_is, merged)
          (elim (Bool-cases repo.is_default) [
            | inl default ↦ rw default meta_name
            | inr other ↦ rw other refl
          ])
  ]

  merge_index-IsNamed :
      (repo : PackageRepository) (items : List PackageRepoIndexItem)
      (m : List (String × MetaIndexItem))
      → IsNamed m
      → IsNamed (merge_index lib clients repo items m)
  unfolding merge_index
  merge_index-IsNamed repo [] m named = named
  merge_index-IsNamed repo (item ∷ items) m named =
      let entry = merged lib clients repo item (get m item.name) in
      merge_index-IsNamed repo items (put m item.name entry) λ k it at_k.
        elim (Bool-cases (str_eq item.name k)) [
          | inl same_name ↦
              let it_is : entry ≡ it = ground (arith, get-put m item.name k entry) in
              rw (← it_is) (merged-name repo item m named ∙ (eq_iff item.name k).0 same_name)
          | inr other ↦ named k it (ground (arith, get-put m item.name k entry))
        ]

  merge_indices-IsNamed :
      (repos : List PackageRepository) (p : List (String × MetaIndexItem) × Faults)
      → IsNamed p.0
      → IsNamed (merge_indices lib clients repos p).0
  unfolding merge_indices
  merge_indices-IsNamed [] p named = named
  merge_indices-IsNamed (repo ∷ repos) p named =
      let reply = clients.fetch_package_repo_index repo in
      merge_indices-IsNamed repos (with_repo_index lib clients repo reply p)
        (with_repo_index-IsNamed repo reply p named)
    where
      with_repo_index-IsNamed :
          (repo : PackageRepository) (reply : Result String (List PackageRepoIndexItem))
          (p : List (String × MetaIndexItem) × Faults)
          → IsNamed p.0
          → IsNamed (with_repo_index lib clients repo reply p).0
      with_repo_index-IsNamed repo (err e) (m, errs) named = named
      with_repo_index-IsNamed repo (ok items) (m, errs) named =
          merge_index-IsNamed repo items m named

-- Each package of a joined index is with exactly the repositories that offer it.
abbrev pub HasTheRepos : RepoClients → List PackageRepository → List MetaIndexItem → Type 0
HasTheRepos clients repos items =
    (it : MetaIndexItem)
    → IsIn it items
    → (x : String) → IsIn x it.repos ↔ OfferedBy clients it.item.name repos x

-- Each package that is offered is in the joined index.
abbrev pub HasTheOffers : RepoClients → List PackageRepository → List MetaIndexItem → Type 0
HasTheOffers clients repos items =
    (r : PackageRepository) (name : String)
    → IsIn r repos
    → Offers clients name r
    → (it : MetaIndexItem) × IsIn it items × (it.item.name ≡ name) × IsIn r.name it.repos

module _ {V C : Type 0} (lib : Semver V C) (clients : RepoClients)
    (ordered : List PackageRepository) where
  abbrev index_map : List (String × MetaIndexItem)
  index_map = (merge_indices lib clients ordered ([], [])).0

  repos_at_iff :
      (name : String) (it : MetaIndexItem)
      → get index_map name ≡ some it
      → (x : String) → IsIn x it.repos ↔ OfferedBy clients name ordered x
  unfolding get
  repos_at_iff name it there_is x =
      let exact = merge_indices_iff lib clients name ordered ([], []) x in
      (
        λ m. elim (exact.0 (rw there_is m)) [ inl none_yet ↦ elim none_yet [ ] | inr o ↦ o ],
        λ o. rw there_is at (exact.1 (inr o)),
      )

  index_map-IsNamed : IsNamed index_map
  unfolding get
  index_map-IsNamed = merge_indices-IsNamed lib clients ordered ([], []) (λ k it e. cc)

  IsIn-item_at :
      (name : String) (it : MetaIndexItem)
      → IsIn it (item_at lib clients (get index_map name))
      → get index_map name ≡ some it
  IsIn-item_at name it m = elim (Option-cases (get index_map name)) [
    | inl absent ↦ elim (rw absent at m) [ ]
    | inr (found, at_name) ↦ elim (rw at_name at m) [
      | here is_it ↦ at_name ∙ ap some is_it
      | there later ↦ elim later [ ]
    ]
  ]

-- FetchMetaIndex always returns where the repositories can be listed. With sorts that keep the
-- elements, each package that it returns is with exactly the repositories of which the index can be
-- fetched and has the package, and each package of such an index is returned.
pub fetch_meta_index_exact :
    {V C : Type 0} (lib : Semver V C) (clients : RepoClients)
    (sort_repos : List PackageRepository → List PackageRepository)
    (sort_names : List String → List String) {repos : List PackageRepository}
    → Reorders sort_repos
    → Reorders sort_names
    → clients.list_package_repositories ≡ ok repos
    → (items : List MetaIndexItem) × (errs : Faults) × (fetch_meta_index lib clients sort_repos
          sort_names
        ≡ ok (items, errs))
      × HasTheRepos clients repos items
      × HasTheOffers clients repos items
unfolding fetch_meta_index
fetch_meta_index_exact lib clients sort_repos sort_names {repos} same_repos same_names listed =
    let ordered = reversed (sort_repos repos) in
    let m = index_map lib clients ordered in
    let names = sort_names (keys m) in
    let same_elements = λ (r : PackageRepository). IsIn-ordered r in
    (
      collect (λ name. item_at lib clients (get m name)) names,
      (merge_indices lib clients ordered ([], [])).1,
      rw (listed, fetch_meta_index) refl,
      λ it is_in x.
          let (name, visited, at_name) = (IsIn-collect _ names it).0 is_in in
          let there_is = IsIn-item_at lib clients ordered name it at_name in
          let is_name = index_map-IsNamed lib clients ordered name it there_is in
          let exact = repos_at_iff lib clients ordered name it there_is x in
          rw is_name (
            λ h. let (r, l, o, q) = exact.0 h in (r, (same_elements r).0 l, o, q),
            λ h. let (r, l, o, q) = h in exact.1 (r, (same_elements r).1 l, o, q),
          ),
      λ r name is_in offers.
          let o : OfferedBy clients name ordered r.name =
            (r, (same_elements r).1 is_in, offers, refl) in
          let listed_at = (merge_indices_iff lib clients name ordered ([], []) r.name).1 (inr o) in
          elim (Option-cases (get m name)) [
            | inl absent ↦ elim (rw absent at listed_at) [ ]
            | inr (it, there_is) ↦ (
              it,
              (IsIn-collect _ names it).1 (
                name,
                (same_names (keys m) name).1 (IsIn-keys m name it there_is),
                rw there_is (here refl),
              ),
              index_map-IsNamed lib clients ordered name it there_is,
              rw there_is at listed_at,
            )
          ],
    )
  where
    IsIn-ordered : (r : PackageRepository) → IsIn r (reversed (sort_repos repos)) ↔ IsIn r repos
    IsIn-ordered r = (
      λ l. (same_repos repos r).0 ((IsIn-reversed (sort_repos repos) r).0 l),
      λ l. (IsIn-reversed (sort_repos repos) r).1 ((same_repos repos r).1 l),
    )
