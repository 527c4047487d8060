-- ===== src/Clientset/Samples.antt =====
-- A repository whose user and password are in one secret, and a server that counts its requests.
use mathlib.Core.Path.{subst}
use glasskube.Base.{
  ok-injective, IsIn, here, there, ℕ, ◌+◌, String, ◌≡◌, refl, true, false, Option, none, some, List,
  [], ◌∷◌, Result, ok, err, str_eq, eq_iff, Bool, Bool-cases, inl, inr, ap, sym, ◌∙◌, ◌&&◌, ◌≢◌,
  arith, if◌then◌else◌,
}
use glasskube.Assoc.{get, put, string_key}
use glasskube.Clientset.Auth.{
  SecretKeySelector, AuthSpec, basic_authenticator, noop_authenticator, crashed, SecretLibrary,
  new_authenticator,
}
use glasskube.Clientset.Literal.{literal_authenticator, new_authenticator-literal}
use glasskube.Clientset.Select.{
  RepositorySpec, SpecifiedRepository, Client, default_client, error_client, ClientState, Clientset,
  ClientsetEnv, for_repo_with_name,
}
use glasskube.Clientset.Coherent.{IsCoherent, TellsApart}
use glasskube.Clientset.Current.{IsServed, for_repo_with_name-IsServed}
use glasskube.Clientset.Forgotten.{Call, after_calls, IsSame, HasSame, for_repo_with_name-forgets}
use glasskube.Clientset.Fetch.{CacheItem, Web, DefaultClient, fetch_yaml_or_json}
use glasskube.Clientset.Age.{IsServedCache, Serves, IsGood, fetch_yaml_or_json-IsGood}

-- A decoding that writes a byte crashes.
abbrev secrets : SecretLibrary
secrets = record {
  decode_into_nothing = λ enc. if str_eq enc "" then ok tt else err crashed;
  get_secret =
      λ name. ok (record { name = name; entries = ("user", "") ∷ ("pass", "c2VjcmV0") ∷ [] });
}

abbrev selector : String → SecretKeySelector
selector key = record { name = "login"; key = key }

abbrev login : AuthSpec
login = record {
  basic = some (record {
    username = none;
    username_secret_ref = some (selector "user");
    password = none;
    password_secret_ref = some (selector "pass");
  });
  bearer = none;
}

abbrev token_login : AuthSpec
token_login = record {
  basic = none;
  bearer = some (record { token = none; token_secret_ref = some (selector "pass") });
}

-- The password is not read, since its secret is that of the user; a token that is read crashes.
login_test :
    (new_authenticator secrets (some login) ≡ ok (basic_authenticator "" ""))
    × (new_authenticator secrets (some token_login) ≡ err crashed)
unfolding new_authenticator get
login_test = (refl, refl)

new_authenticator-literal_example : basic_authenticator "" "" ≡ literal_authenticator (some login)
new_authenticator-literal_example =
    new_authenticator-literal secrets (some login) (basic_authenticator "" "") login_test.0

abbrev spec_of : String → RepositorySpec
spec_of url = record { url = url; auth = none }

abbrev main : SpecifiedRepository
main = record { name = "main"; is_default = true; spec = spec_of "https://main" }

-- A test that tells specs apart, and knows those without an auth.
abbrev no_auth : Option AuthSpec → Option AuthSpec → Bool
no_auth none none = true
no_auth none (some b) = false
no_auth (some a) b = false

abbrev env : ClientsetEnv
env = record {
  secrets = secrets;
  same_spec = λ a b. str_eq a.url b.url && no_auth a.auth b.auth;
  get_package_repository = λ name. if str_eq name "main" then ok main else err "not found";
  list_package_repositories = ok (main ∷ []);
  client_info_check_interval = 30;
}

abbrev nothing_kept : Clientset
nothing_kept = record { clients = []; made = 0 }

abbrev main_client : Client
main_client = default_client 0 "https://main" noop_authenticator

abbrev main_state : ClientState
main_state = record { client = main_client; last_checked_repo_spec = 5; repo = main }

abbrev main_kept : Clientset
main_kept = record { clients = ("main", main_state) ∷ []; made = 1 }

select_test :
    (for_repo_with_name env 5 nothing_kept "" ≡ some (main_kept, main_client))
    × (for_repo_with_name env 9 main_kept "main" ≡ some (main_kept, main_client))
    × (for_repo_with_name env 9 main_kept "other" ≡ some (main_kept, error_client "not found"))
unfolding for_repo_with_name get put
select_test = (refl, refl, refl)

no_auth-same : (a b : Option AuthSpec) → no_auth a b ≡ true → a ≡ b
no_auth-same none none e = refl
no_auth-same none (some b) e = cc
no_auth-same (some a) b e = cc

env-TellsApart : TellsApart env
env-TellsApart a b e = ground (arith, eq_iff a.url b.url, no_auth-same a.auth b.auth)

nothing_kept-IsCoherent : IsCoherent env nothing_kept
unfolding get
nothing_kept-IsCoherent name state e = cc

for_repo_with_name-IsServed_example :
    IsCoherent env main_kept × IsServed env 5 nothing_kept "" main_client
for_repo_with_name-IsServed_example =
    for_repo_with_name-IsServed env 5 nothing_kept main_kept "" main_client env-TellsApart
      nothing_kept-IsCoherent select_test.0

unnamed : ◌≢◌ {A = String} "main" ""
unnamed = ground (arith, eq_iff "main" "")

abbrev unreachable : ClientsetEnv
unreachable = record env { get_package_repository = λ name. err "unreachable" }

-- One second before the server fails, the repository is found to be as it was.
abbrev calls : List Call
calls =
    record { env = env; now = 39; name = "main" } ∷ record { env = env; now = 39; name = "" } ∷ []

main-IsSame : (repo : SpecifiedRepository) → main ≡ repo → IsSame "main" main_state env repo
main-IsSame repo e = subst (IsSame "main" main_state env) e (λ named. refl)

asked-IsSame :
    (found : Bool) (repo : SpecifiedRepository)
    → ◌≡◌ {A = Result String SpecifiedRepository}
        (if found then ok main else err "not found")
        (ok repo)
    → IsSame "main" main_state env repo
asked-IsSame true repo e = main-IsSame repo cc
asked-IsSame false repo e = cc

listed-IsSame :
    (repo : SpecifiedRepository) → IsIn repo (main ∷ []) → IsSame "main" main_state env repo
listed-IsSame repo (here e) = main-IsSame repo e
listed-IsSame repo (there m) = elim m [ ]

env-HasSame :
    (now : ℕ) (name : String)
    → HasSame "main" main_state (record { env = env; now = now; name = name })
env-HasSame now name = record {
  by_name = λ asked repo e. asked-IsSame (str_eq asked "main") repo e;
  by_list =
      λ repos repo e member. listed-IsSame repo (subst (IsIn repo) (sym (ok-injective e)) member);
}

called :
    (get main_kept.clients "main" ≡ some main_state)
    × (after_calls main_kept calls ≡ some main_kept)
unfolding get after_calls for_repo_with_name
called = (refl, refl)

for_repo_with_name-forgets_example :
    for_repo_with_name unreachable 40 main_kept "main"
    ≡ some (main_kept, error_client "unreachable")
for_repo_with_name-forgets_example =
    for_repo_with_name-forgets "main" main_state calls main_kept main_kept unreachable 40
      "unreachable" unnamed called.0 (env-HasSame 39 "main", (env-HasSame 39 "", tt)) called.1
      (omega arith) refl

-- The state of the server is the number of its requests, which is its clock too.
abbrev counting : Web ℕ
counting = record {
  clock = λ w. w;
  new_request = λ url. none;
  send = λ w auth url. (
    w + 1,
    ok (record { status_code = 200; content_type = "text/yaml; charset=utf-8"; body = ok url }),
  );
  trim_space = λ s. if str_eq s " charset=utf-8" then "charset=utf-8" else s;
  join_path = λ base parts. ok base;
  path_escape = λ s. s;
}

abbrev client : DefaultClient
client = record { url = "u"; authenticator = noop_authenticator; max_cache_age = 5 }

abbrev whole : String → Result String String
whole s = ok s

abbrev kept_u : List (String × CacheItem)
kept_u = ("u", record { bytes = "u"; updated = some 1 }) ∷ []

fetch_test :
    (fetch_yaml_or_json counting client whole (0, []) "u" ≡ ((1, kept_u), ok "u"))
    × (fetch_yaml_or_json counting client whole (1, kept_u) "u" ≡ ((1, kept_u), ok "u"))
unfolding fetch_yaml_or_json get put
fetch_test = (refl, refl)

-- What the server serves for a url is the url.
abbrev Echoes : String → ℕ → String → Type 0
Echoes url t bytes = bytes ≡ url

counting-Serves : Serves counting client Echoes whole
unfolding fetch_yaml_or_json
counting-Serves w url bytes e = cc e

kept_u-IsServedCache : IsServedCache counting client Echoes whole kept_u
unfolding get
kept_u-IsServedCache url item t e is_t = elim (Bool-cases (str_eq "u" url)) [
  | inl same ↦
      let is_it : record { bytes = "u"; updated = some 1 } ≡ item = cc (rw same at e) in
      ap (λ (i : CacheItem). i.bytes) (sym is_it) ∙ (eq_iff "u" url).0 same
  | inr other ↦ cc (rw other at e)
]

fetch_yaml_or_json-IsGood_example :
    IsGood counting client Echoes whole "u"
      (fetch_yaml_or_json counting client whole (1, kept_u) "u")
fetch_yaml_or_json-IsGood_example =
    fetch_yaml_or_json-IsGood counting client Echoes whole 1 kept_u "u" counting-Serves
      kept_u-IsServedCache
