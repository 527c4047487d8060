-- ===== src/Repo/Spec.antt =====
-- What the meta client finds in the repositories.
use glasskube.Base.{
  String, ◌≡◌, refl, true, ◌⊎◌, inl, inr, ◌↔◌, List, [], ◌∷◌, Result, ok, err, Bool-cases, IsIn,
  here, there, IsIn-append, IsIn-append_left, IsIn-append_right,
}
use glasskube.Assoc.{string_key}
use glasskube.Manager.Types.{Faults}
use glasskube.Repo.Types.{PackageRepoIndexItem, PackageRepository, RepoClients}
use glasskube.Repo.Meta.{
  lists_package, with_index, partial_or_complete, repos_from, get_repos_for_package,
}

-- The index can be fetched and has a package of the name.
abbrev pub OffersIn : String → Result String (List PackageRepoIndexItem) → Type 0
OffersIn name (ok index) = lists_package index name ≡ true
OffersIn name (err e) = ⊥

abbrev pub Offers : RepoClients → String → PackageRepository → Type 0
Offers clients name repo = OffersIn name (clients.fetch_package_repo_index repo)

-- A repository of the list that offers the package, by its name.
abbrev pub OfferedBy : RepoClients → String → List PackageRepository → String → Type 0
OfferedBy clients name repos x =
    (r : PackageRepository) × IsIn r repos × Offers clients name r × (r.name ≡ x)

module _ (clients : RepoClients) (name : String) where
  with_index_iff :
      (repo : PackageRepository) (reply : Result String (List PackageRepoIndexItem))
      (found : List PackageRepository × Faults) (r : PackageRepository)
      → IsIn r (with_index clients name repo reply found).0
        ↔ (IsIn r found.0 ⊎ ((repo ≡ r) × OffersIn name reply))
  with_index_iff repo (err e) (found, errs) r =
      (λ m. inl m, λ s. elim s [ inl m ↦ m | inr (p, o) ↦ absurd o ])
  with_index_iff repo (ok index) (found, errs) r = elim (Bool-cases (lists_package index name)) [
    | inl listed ↦ rw listed (
      λ m. elim (IsIn-append found m) [
        | inl f ↦ inl f
        | inr (here is_r) ↦ inr (is_r, refl)
        | inr (there g) ↦ elim g [ ]
      ],
      λ s. elim s [
        | inl f ↦ IsIn-append_left (repo ∷ []) f
        | inr (is_r, o) ↦ IsIn-append_right found (here is_r)
      ],
    )
    | inr not_listed ↦ rw not_listed (λ m. inl m, λ s. elim s [ inl m ↦ m | inr (p, o) ↦ cc ])
  ]

  repos_from_iff :
      (repos : List PackageRepository) (found : List PackageRepository × Faults)
      (r : PackageRepository)
      → IsIn r (repos_from clients name repos found).0
        ↔ (IsIn r found.0 ⊎ (IsIn r repos × Offers clients name r))
  unfolding repos_from
  repos_from_iff [] found r = (λ m. inl m, λ s. elim s [ inl m ↦ m | inr (m, o) ↦ elim m [ ] ])
  repos_from_iff (x ∷ xs) found r =
      let reply = clients.fetch_package_repo_index x in
      let one = with_index_iff x reply found r in
      let rest = repos_from_iff xs (with_index clients name x reply found) r in
      (
        λ m. elim (rest.0 m) [
          | inl f ↦ elim (one.0 f) [ inl g ↦ inl g | inr (is_r, o) ↦ inr (here is_r, rw is_r at o) ]
          | inr (l, o) ↦ inr (there l, o)
        ],
        λ s. rest.1 (elim s [
          | inl g ↦ inl (one.1 (inl g))
          | inr (here is_r, o) ↦ inl (one.1 (inr (is_r, rw (← is_r) at o)))
          | inr (there l, o) ↦ inr (l, o)
        ]),
      )

  partial_or_complete-fst :
      (p : List PackageRepository × Faults) → (partial_or_complete clients p).0 ≡ p.0
  partial_or_complete-fst (rs, []) = refl
  partial_or_complete-fst ([], e ∷ es) = refl
  partial_or_complete-fst (r ∷ rs, e ∷ es) = refl

  -- Where the repositories can be listed, GetReposForPackage returns exactly those of them whose index
  -- can be fetched and has the package, also where the index of another cannot be fetched.
  pub get_repos_for_package_exact :
      {repos : List PackageRepository}
      → clients.list_package_repositories ≡ ok repos
      → (r : PackageRepository)
      → IsIn r (get_repos_for_package clients name).0 ↔ (IsIn r repos × Offers clients name r)
  unfolding get_repos_for_package
  get_repos_for_package_exact {repos} listed r =
      rw (listed, get_repos_for_package)
        (rw (partial_or_complete-fst (repos_from clients name repos ([], []))) (
          let exact = repos_from_iff repos ([], []) r in
          (
            λ m. elim (exact.0 m) [ inl none_yet ↦ elim none_yet [ ] | inr found ↦ found ],
            λ h. exact.1 (inr h),
          )))
