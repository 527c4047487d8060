-- ===== src/Clientset/Select.antt =====
-- Which client a repository gets: ForRepoWithName, ForRepo and Default of
-- internal/repo/client/clientset.go. A call returns the next state of the clientset, or crashes
-- (`none`). The calls are taken one after another: those that overlap, where ForRepoWithName reads the
-- map that ForRepo writes under another mutex, are left out. Times are numbers.
use glasskube.Base.{
  ℕ, ◌+◌, String, Bool, false, ltb, Option, none, some, List, [], ◌∷◌, Result, ok, err, str_eq,
  if◌then◌else◌,
}
use glasskube.Assoc.{get, put, string_key}
use glasskube.Clientset.Auth.{
  AuthSpec, Authenticator, Failure, failed, crashed, SecretLibrary, new_authenticator,
}

-- PackageRepositorySpec
pub record RepositorySpec : Type 0 where
  pub url : String
  pub auth : Option AuthSpec

-- PackageRepository, with what IsDefaultRepository answers.
pub record SpecifiedRepository : Type 0 where
  pub name : String
  pub is_default : Bool
  pub spec : RepositorySpec

-- A *defaultClient, with the number of its New, or an errorclient.
pub data Client : Type 0 where
  default_client : ℕ → String → Authenticator → Client
  error_client : String → Client

-- repoClientWithState
pub record ClientState : Type 0 where
  pub client : Client
  pub last_checked_repo_spec : ℕ
  pub repo : SpecifiedRepository

-- defaultClientset, with the number of the clients made so far.
pub record Clientset : Type 0 where
  pub clients : List (String × ClientState)
  pub made : ℕ

-- `same_spec` is reflect.DeepEqual.
pub record ClientsetEnv : Type 0 where
  pub secrets : SecretLibrary
  pub same_spec : RepositorySpec → RepositorySpec → Bool
  pub get_package_repository : String → Result String SpecifiedRepository
  pub list_package_repositories : Result String (List SpecifiedRepository)
  pub client_info_check_interval : ℕ

module _ (env : ClientsetEnv) where
  -- What ForRepo keeps for a repository for which it makes a client.
  abbrev pub keep_client :
      ℕ
      → Clientset
      → SpecifiedRepository
      → Result Failure Authenticator
      → Option (Clientset × Client)
  keep_client now d repo (err (failed e)) = some (d, error_client e)
  keep_client now d repo (err crashed) = none
  keep_client now d repo (ok auth) =
      let client = default_client d.made repo.spec.url auth in
      some (
        record {
          clients =
              put d.clients repo.name
                (record { client = client; last_checked_repo_spec = now; repo = repo });
          made = d.made + 1;
        },
        client,
      )

  unfoldable pub make_client : ℕ → Clientset → SpecifiedRepository → Option (Clientset × Client)
  unfolding new_authenticator
  make_client now d repo = keep_client now d repo (new_authenticator env.secrets repo.spec.auth)

  -- The new time of the last check is written to a copy of the state of the client.
  unfoldable pub reuse_or_make :
      ℕ → Clientset → SpecifiedRepository → Option ClientState → Option (Clientset × Client)
  unfolding make_client
  reuse_or_make now d repo none = make_client now d repo
  reuse_or_make now d repo (some state) =
      if env.same_spec state.repo.spec repo.spec
      then some (d, state.client)
      else make_client now d repo

  -- ForRepo
  unfoldable pub for_repo : ℕ → Clientset → SpecifiedRepository → Option (Clientset × Client)
  unfolding reuse_or_make
  for_repo now d repo = reuse_or_make now d repo (get d.clients repo.name)

  -- The loop of Default.
  unfoldable pub first_default :
      ℕ → Clientset → List SpecifiedRepository → Option (Clientset × Client)
  unfolding for_repo
  first_default now d [] = some (d, error_client "default repository not found")
  first_default now d (repo ∷ repos) =
      if repo.is_default then for_repo now d repo else first_default now d repos

  unfoldable pub default_of :
      ℕ → Clientset → Result String (List SpecifiedRepository) → Option (Clientset × Client)
  unfolding first_default
  default_of now d (err e) = some (d, error_client e)
  default_of now d (ok repos) = first_default now d repos

  -- Default
  unfoldable pub default_repo : ℕ → Clientset → Option (Clientset × Client)
  unfolding default_of
  default_repo now d = default_of now d env.list_package_repositories

  unfoldable pub found_repo :
      ℕ → Clientset → Result String SpecifiedRepository → Option (Clientset × Client)
  unfolding for_repo
  found_repo now d (err e) = some (d, error_client e)
  found_repo now d (ok repo) = for_repo now d repo

  -- lastCheckedRepoSpecAgo, of an entry that is there.
  unfoldable pub is_recent : ℕ → Option ClientState → Bool
  is_recent now none = false
  is_recent now (some state) =
      ltb now (state.last_checked_repo_spec + env.client_info_check_interval)

  -- The client of an entry that is there and recent, or the rest of ForRepoWithName.
  unfoldable pub recent_or :
      ℕ → Clientset → Option ClientState → Option (Clientset × Client) → Option (Clientset × Client)
  unfolding is_recent
  recent_or now d none rest = rest
  recent_or now d (some state) rest =
      if is_recent now (some state) then some (d, state.client) else rest

  -- ForRepoWithName
  unfoldable pub for_repo_with_name : ℕ → Clientset → String → Option (Clientset × Client)
  unfolding recent_or found_repo default_repo
  for_repo_with_name now d name = recent_or now d (get d.clients name) (
      if str_eq name ""
      then default_repo now d
      else found_repo now d (env.get_package_repository name))
