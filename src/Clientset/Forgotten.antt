-- ===== src/Clientset/Forgotten.antt =====
-- The time of the last check, which ForRepo of internal/repo/client/clientset.go does not keep.
use mathlib.Core.Path.{subst}
use mathlib.Core.Option.{some-injective}
use glasskube.Base.{
  ℕ, ◌+◌, ◌≤◌, String, ◌≡◌, ◌≢◌, refl, false, true, Option, none, some, List, [], ◌∷◌, Result, ok,
  err, eq_iff, str_eq, Bool-cases, Option-cases, inl, inr, IsIn, here, there, All, if_both, if_else,
  ltb, ◌∙◌, arith,
}
use glasskube.Assoc.{get, get-put, string_key}
use glasskube.Clientset.Auth.{Authenticator, Failure, failed, crashed, new_authenticator}
use glasskube.Clientset.Select.{
  SpecifiedRepository, Client, error_client, ClientState, Clientset, ClientsetEnv, keep_client,
  make_client, reuse_or_make, for_repo, first_default, default_of, default_repo, found_repo,
  is_recent, recent_or, for_repo_with_name,
}

-- A call of ForRepoWithName, with the API server and the time that it meets.
pub record Call : Type 0 where
  pub env : ClientsetEnv
  pub now : ℕ
  pub name : String

-- The clientset after some calls, one after another, unless one of them crashes.
unfoldable pub after_calls : Clientset → List Call → Option Clientset
unfolding for_repo_with_name
after_calls d [] = some d
after_calls d (call ∷ calls) = elim (for_repo_with_name call.env call.now d call.name) [
  | none ↦ none
  | some (d', client) ↦ after_calls d' calls
]

module _ (name : String) (state : ClientState) where
  -- The server has the repository of that name as it was.
  abbrev pub IsSame : ClientsetEnv → SpecifiedRepository → Type 0
  IsSame env repo = repo.name ≡ name → env.same_spec state.repo.spec repo.spec ≡ true

  pub record HasSame (call : Call) : Type 0 where
    pub by_name :
        (asked : String) (repo : SpecifiedRepository)
        → call.env.get_package_repository asked ≡ ok repo
        → IsSame call.env repo
    pub by_list :
        (repos : List SpecifiedRepository) (repo : SpecifiedRepository)
        → call.env.list_package_repositories ≡ ok repos
        → IsIn repo repos
        → IsSame call.env repo

  -- The clientset that a call leaves keeps the state.
  abbrev Kept : Option (Clientset × Client) → Type 0
  Kept none = Unit
  Kept (some (d, client)) = get d.clients name ≡ some state

  module _ (env : ClientsetEnv) (now : ℕ) (d : Clientset)
      (kept : get d.clients name ≡ some state) where
    keep_client-Kept :
        (repo : SpecifiedRepository) (auth : Result Failure Authenticator)
        → str_eq repo.name name ≡ false
        → Kept (keep_client env now d repo auth)
    keep_client-Kept repo (ok auth) other =
        get-put d.clients repo.name name _
        ∙ if_else (λ (o : Option ClientState). o ≡ some state) (str_eq repo.name name) _ other kept
    keep_client-Kept repo (err (failed e)) other = kept
    keep_client-Kept repo (err crashed) other = tt

    other-Kept :
        (repo : SpecifiedRepository) (o : Option ClientState)
        → str_eq repo.name name ≡ false
        → Kept (reuse_or_make env now d repo o)
    unfolding reuse_or_make make_client
    other-Kept repo none other =
        keep_client-Kept repo (new_authenticator env.secrets repo.spec.auth) other
    other-Kept repo (some s) other =
        if_both Kept (env.same_spec s.repo.spec repo.spec) {x = some (d, s.client)} kept
          (keep_client-Kept repo (new_authenticator env.secrets repo.spec.auth) other)

    for_repo-Kept : (repo : SpecifiedRepository) → IsSame env repo → Kept (for_repo env now d repo)
    unfolding for_repo reuse_or_make
    for_repo-Kept repo same = elim (Bool-cases (str_eq repo.name name)) [
      | inl e ↦
          let is_name = (eq_iff repo.name name).0 e in
          let there_is : get d.clients repo.name ≡ some state = rw is_name kept in
          rw (there_is, same is_name) kept
      | inr other ↦ other-Kept repo (get d.clients repo.name) other
    ]

    first_default-Kept :
        (repos : List SpecifiedRepository)
        → ((repo : SpecifiedRepository) → IsIn repo repos → IsSame env repo)
        → Kept (first_default env now d repos)
    unfolding first_default
    first_default-Kept [] same = kept
    first_default-Kept (repo ∷ repos) same =
        if_both Kept repo.is_default (for_repo-Kept repo (same repo (here refl)))
          (first_default-Kept repos (λ r member. same r (there member)))

    default_of-Kept :
        (listed : Result String (List SpecifiedRepository))
        → ((repos : List SpecifiedRepository) (repo : SpecifiedRepository)
            → listed ≡ ok repos
            → IsIn repo repos
            → IsSame env repo)
        → Kept (default_of env now d listed)
    unfolding default_of
    default_of-Kept (err e) same = kept
    default_of-Kept (ok repos) same =
        first_default-Kept repos (λ repo member. same repos repo refl member)

    found_repo-Kept :
        (answer : Result String SpecifiedRepository)
        → ((repo : SpecifiedRepository) → answer ≡ ok repo → IsSame env repo)
        → Kept (found_repo env now d answer)
    unfolding found_repo
    found_repo-Kept (err e) same = kept
    found_repo-Kept (ok repo) same = for_repo-Kept repo (same repo refl)

    recent_or-Kept :
        (o : Option ClientState) (rest : Option (Clientset × Client))
        → Kept rest
        → Kept (recent_or env now d o rest)
    unfolding recent_or
    recent_or-Kept none rest h = h
    recent_or-Kept (some s) rest h =
        if_both Kept (is_recent env now (some s)) {x = some (d, s.client)} kept h

  call-Kept :
      (call : Call) (d : Clientset)
      → HasSame call
      → get d.clients name ≡ some state
      → Kept (for_repo_with_name call.env call.now d call.name)
  unfolding for_repo_with_name default_repo
  call-Kept call d same kept = recent_or-Kept call.env call.now d kept (get d.clients call.name) _ (
      if_both Kept (str_eq call.name "")
        (default_of-Kept call.env call.now d kept call.env.list_package_repositories same.by_list)
        (found_repo-Kept call.env call.now d kept (call.env.get_package_repository call.name)
          (λ repo. same.by_name call.name repo)))

  after_calls-Kept :
      (calls : List Call) (d d' : Clientset)
      → All HasSame calls
      → get d.clients name ≡ some state
      → after_calls d calls ≡ some d'
      → get d'.clients name ≡ some state
  unfolding after_calls
  after_calls-Kept [] d d' same kept e =
      subst (λ (x : Clientset). get x.clients name ≡ some state) (some-injective _ _ e) kept
  after_calls-Kept (call ∷ calls) d d' (same, rest) kept e =
      elim (Option-cases (for_repo_with_name call.env call.now d call.name)) [
        | inl crash ↦ cc (rw (crash, after_calls) at e)
        | inr ((d1, client), f) ↦
            after_calls-Kept calls d1 d' rest (subst Kept f (call-Kept call d same kept))
              (rw (f, after_calls) at e)
      ]

  -- However often clients are asked for, by any names, the time of the last check of a repository that
  -- does not change stays that of the making of its client: once the interval has passed since then,
  -- a call for it fails where the API server does, however short ago the last call was.
  pub for_repo_with_name-forgets :
      (calls : List Call) (d d' : Clientset) (env : ClientsetEnv) (later : ℕ) (e : String)
      → name ≢ ""
      → get d.clients name ≡ some state
      → All HasSame calls
      → after_calls d calls ≡ some d'
      → state.last_checked_repo_spec + env.client_info_check_interval ≤ later
      → env.get_package_repository name ≡ err e
      → for_repo_with_name env later d' name ≡ some (d', error_client e)
  unfolding for_repo_with_name recent_or found_repo is_recent
  for_repo_with_name-forgets calls d d' env later e named kept same after passed fails =
      let kept' = after_calls-Kept calls d d' same kept after in
      let old : ltb later (state.last_checked_repo_spec + env.client_info_check_interval) ≡ false =
        ground arith in
      elim (Bool-cases (str_eq name "")) [
        | inl empty ↦ elim (named ((eq_iff name "").0 empty)) [ ]
        | inr nonempty ↦ rw (kept', old, nonempty, fails) refl
      ]
