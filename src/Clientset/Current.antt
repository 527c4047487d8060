-- ===== src/Clientset/Current.antt =====
-- Which repository the client that a clientset returns reads.
use mathlib.Core.Path.{subst}
use glasskube.Base.{
  ℕ, ◌+◌, ◌<◌, String, ◌≡◌, ◌⊎◌, refl, true, Option, none, some, List, [], ◌∷◌, Result, ok, err,
  str_eq, eq_iff, if◌then◌else◌, Bool-cases, inl, inr, IsIn, here, there, arith,
}
use glasskube.Assoc.{get, string_key}
use glasskube.Clientset.Select.{
  SpecifiedRepository, Client, error_client, ClientState, Clientset, ClientsetEnv, for_repo,
  first_default, default_of, default_repo, found_repo, is_recent, recent_or, for_repo_with_name,
}
use glasskube.Clientset.Coherent.{
  Reads, ReadsOrFails, IsCoherent, TellsApart, Leaves, Leaves-mono, Leaves-if, for_repo-Leaves,
}

module _ (env : ClientsetEnv) where
  -- The repository is the API server's answer to the name, or its default repository where there is
  -- no name.
  abbrev pub IsAnswer : String → SpecifiedRepository → Type 0
  IsAnswer name repo =
      (env.get_package_repository name ≡ ok repo)
      ⊎ ((repos : List SpecifiedRepository) × (name ≡ "")
          × (env.list_package_repositories ≡ ok repos)
          × IsIn repo repos
          × (repo.is_default ≡ true))

  -- The repository was found under the name less than the interval ago.
  abbrev pub WasChecked : ℕ → Clientset → String → SpecifiedRepository → Type 0
  WasChecked now d name repo =
      (state : ClientState) × (get d.clients name ≡ some state)
      × (state.repo ≡ repo)
      × (now < state.last_checked_repo_spec + env.client_info_check_interval)

  abbrev pub ServedBy : (SpecifiedRepository → Type 0) → Client → Type 0
  ServedBy Q client =
      ((repo : SpecifiedRepository) × Q repo × Reads env client repo.spec)
      ⊎ ((e : String) × (client ≡ error_client e))

  served_by :
      (Q : SpecifiedRepository → Type 0) (repo : SpecifiedRepository)
      → Q repo
      → (client : Client) → ReadsOrFails env client repo.spec
      → ServedBy Q client
  served_by Q repo q client (inl reads) = inl (repo, q, reads)
  served_by Q repo q client (inr fails) = inr fails

  first_default-Leaves :
      (now : ℕ) (d : Clientset) (repos : List SpecifiedRepository)
      → TellsApart env
      → IsCoherent env d
      → Leaves env
          (ServedBy (λ repo. IsIn repo repos × (repo.is_default ≡ true)))
          (first_default env now d repos)
  unfolding first_default
  first_default-Leaves now d [] apart coherent = (coherent, inr (_, refl))
  first_default-Leaves now d (repo ∷ repos) apart coherent =
      Leaves-if env (ServedBy (λ r. IsIn r (repo ∷ repos) × (r.is_default ≡ true))) repo.is_default
        (for_repo env now d repo) (first_default env now d repos)
        (λ is_default.
          Leaves-mono env (λ client. ReadsOrFails env client repo.spec) _
            (served_by (λ r. IsIn r (repo ∷ repos) × (r.is_default ≡ true)) repo
              (here refl, is_default))
            (for_repo env now d repo) (for_repo-Leaves env now d repo apart coherent))
        (λ other.
          Leaves-mono env (ServedBy (λ r. IsIn r repos × (r.is_default ≡ true))) _
            (λ client served. elim served [
              | inl (r, (r_in, r_default), reads) ↦ inl (r, (there r_in, r_default), reads)
              | inr fails ↦ inr fails
            ])
            (first_default env now d repos) (first_default-Leaves now d repos apart coherent))

  looked_up-Leaves :
      (now : ℕ) (d : Clientset) (name : String) (answer : Result String SpecifiedRepository)
      → TellsApart env
      → IsCoherent env d
      → env.get_package_repository name ≡ answer
      → Leaves env (ServedBy (IsAnswer name)) (found_repo env now d answer)
  unfolding found_repo
  looked_up-Leaves now d name (err e) apart coherent is_answer = (coherent, inr (e, refl))
  looked_up-Leaves now d name (ok repo) apart coherent is_answer =
      Leaves-mono env (λ client. ReadsOrFails env client repo.spec) (ServedBy (IsAnswer name))
        (served_by (IsAnswer name) repo (inl is_answer)) (for_repo env now d repo)
        (for_repo-Leaves env now d repo apart coherent)

  default_of-Leaves :
      (now : ℕ) (d : Clientset) (name : String) (answer : Result String (List SpecifiedRepository))
      → TellsApart env
      → IsCoherent env d
      → name ≡ ""
      → env.list_package_repositories ≡ answer
      → Leaves env (ServedBy (IsAnswer name)) (default_of env now d answer)
  unfolding default_of
  default_of-Leaves now d name (err e) apart coherent no_name listed = (coherent, inr (e, refl))
  default_of-Leaves now d name (ok repos) apart coherent no_name listed =
      Leaves-mono env (ServedBy (λ r. IsIn r repos × (r.is_default ≡ true)))
        (ServedBy (IsAnswer name))
        (λ client served. elim served [
          | inl (r, (r_in, r_default), reads) ↦
              inl (r, inr (repos, no_name, listed, r_in, r_default), reads)
          | inr fails ↦ inr fails
        ])
        (first_default env now d repos) (first_default-Leaves now d repos apart coherent)

  -- What ForRepoWithName does where it has no recent client.
  abbrev pub looked_up : ℕ → Clientset → String → Option (Clientset × Client)
  looked_up now d name =
      if str_eq name ""
      then default_repo env now d
      else found_repo env now d (env.get_package_repository name)

  fresh-Leaves :
      (now : ℕ) (d : Clientset) (name : String)
      → TellsApart env
      → IsCoherent env d
      → Leaves env (ServedBy (IsAnswer name)) (looked_up now d name)
  unfolding default_repo
  fresh-Leaves now d name apart coherent = elim (Bool-cases (str_eq name "")) [
    | inl no_name ↦ rw no_name (
        default_of-Leaves now d name env.list_package_repositories apart coherent
          ((eq_iff name "").0 no_name) refl)
    | inr named ↦
        rw named (looked_up-Leaves now d name (env.get_package_repository name) apart coherent refl)
  ]

  abbrev pub IsServed : ℕ → Clientset → String → Client → Type 0
  IsServed now d name = ServedBy (λ repo. IsAnswer name repo ⊎ WasChecked now d name repo)

  recent-lt :
      (now : ℕ) (state : ClientState)
      → is_recent env now (some state) ≡ true
      → now < state.last_checked_repo_spec + env.client_info_check_interval
  unfolding is_recent
  recent-lt now state recent = ground arith

  answered :
      (now : ℕ) (d : Clientset) (name : String) (client : Client)
      → ServedBy (IsAnswer name) client
      → IsServed now d name client
  answered now d name client (inl (repo, is_answer, reads)) = inl (repo, inl is_answer, reads)
  answered now d name client (inr fails) = inr fails

  recent_or-Leaves :
      (now : ℕ) (d : Clientset) (name : String) (known : Option ClientState)
      → TellsApart env
      → IsCoherent env d
      → get d.clients name ≡ known
      → Leaves env (IsServed now d name) (recent_or env now d known (looked_up now d name))
  unfolding recent_or
  recent_or-Leaves now d name none apart coherent e =
      Leaves-mono env (ServedBy (IsAnswer name)) (IsServed now d name) (answered now d name)
        (looked_up now d name) (fresh-Leaves now d name apart coherent)
  recent_or-Leaves now d name (some state) apart coherent e =
      Leaves-if env (IsServed now d name) (is_recent env now (some state)) (some (d, state.client))
        (looked_up now d name)
        (λ recent. (
          coherent,
          inl (
            state.repo,
            inr (state, e, refl, recent-lt now state recent),
            (coherent name state e).1,
          ),
        ))
        (λ old.
          Leaves-mono env (ServedBy (IsAnswer name)) (IsServed now d name) (answered now d name)
            (looked_up now d name) (fresh-Leaves now d name apart coherent))

-- ForRepoWithName keeps every kept client in step with the repository it is kept for, and where it
-- does not crash, it returns an error client, or one for the url and the auth of a repository that the
-- API server answers now, or that it found under the name less than the interval ago.
pub for_repo_with_name-IsServed :
    (env : ClientsetEnv) (now : ℕ) (d d' : Clientset) (name : String) (client : Client)
    → TellsApart env
    → IsCoherent env d
    → for_repo_with_name env now d name ≡ some (d', client)
    → IsCoherent env d' × IsServed env now d name client
unfolding for_repo_with_name
for_repo_with_name-IsServed env now d d' name client apart coherent e =
    subst (Leaves env (IsServed env now d name)) e
      (recent_or-Leaves env now d name (get d.clients name) apart coherent refl)
