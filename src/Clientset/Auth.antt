-- ===== src/Clientset/Auth.antt =====
-- The authenticators of internal/repo/client/auth, and newAuthenticator with getKeyFromSecret of
-- internal/repo/client/clientset.go. encoding/base64 and the Kubernetes client are parameters.
use glasskube.Base.{
  String, Bool, false, not, Option, none, some, List, ◌>>=◌, Result, ok, err, str_eq, if◌then◌else◌,
}
use glasskube.Assoc.{get, string_key}

-- corev1.SecretKeySelector
pub record SecretKeySelector : Type 0 where
  pub name : String
  pub key : String

-- PackageRepositoryBasicAuthSpec
pub record BasicAuthSpec : Type 0 where
  pub username : Option String
  pub username_secret_ref : Option SecretKeySelector
  pub password : Option String
  pub password_secret_ref : Option SecretKeySelector

-- PackageRepositoryBearerAuthSpec
pub record BearerAuthSpec : Type 0 where
  pub token : Option String
  pub token_secret_ref : Option SecretKeySelector

-- PackageRepositoryAuthSpec
pub record AuthSpec : Type 0 where
  pub basic : Option BasicAuthSpec
  pub bearer : Option BearerAuthSpec

-- The implementations of Authenticator
pub data Authenticator : Type 0 where
  basic_authenticator : String → String → Authenticator
  bearer_authenticator : String → Authenticator
  noop_authenticator : Authenticator

-- How a call ends other than by a result.
pub data Failure : Type 0 where
  failed : String → Failure
  crashed : Failure

-- corev1.Secret: its name and its data.
pub record Secret : Type 0 where
  pub name : String
  pub entries : List (String × String)

-- base64.StdEncoding.Decode into a destination of no bytes: it ends well, with an error, or it
-- crashes where there is a byte to write. `get_secret` is GetSecret in the namespace glasskube-system.
pub record SecretLibrary : Type 0 where
  pub decode_into_nothing : String → Result Failure (Unit {0})
  pub get_secret : String → Result String Secret

module _ (lib : SecretLibrary) where
  abbrev pub secret_entry : Option String → Result Failure String
  secret_entry none = err (failed "no such key")
  secret_entry (some enc) = lib.decode_into_nothing enc >>= λ done. ok ""

  -- getKeyFromSecret: the destination of the decoding is nil and stays nil.
  unfoldable pub get_key_from_secret : Secret → String → Result Failure String
  get_key_from_secret secret key = secret_entry (get secret.entries key)

  abbrev pub fetched_secret : Result String Secret → Result Failure Secret
  fetched_secret (ok secret) = ok secret
  fetched_secret (err e) = err (failed e)

  abbrev pub secret_named : SecretKeySelector → Result Failure Secret
  secret_named ref = fetched_secret (lib.get_secret ref.name)

  -- The user and the secret that was fetched for it.
  unfoldable pub basic_user :
      Option String → Option SecretKeySelector → Result Failure (String × Option Secret)
  unfolding get_key_from_secret
  basic_user (some user) ref = ok (user, none)
  basic_user none none = ok ("", none)
  basic_user none (some ref) = secret_named ref >>= λ secret.
      get_key_from_secret secret ref.key >>= λ user. ok (user, some secret)

  abbrev pub is_of_name : Option Secret → String → Bool
  is_of_name none name = false
  is_of_name (some secret) name = str_eq secret.name name

  unfoldable pub read_secret : SecretKeySelector → Result Failure String
  unfolding get_key_from_secret
  read_secret ref = secret_named ref >>= λ secret. get_key_from_secret secret ref.key

  -- The password: its key is read only from a secret that is fetched for it.
  unfoldable pub basic_password :
      Option String → Option SecretKeySelector → Option Secret → Result Failure String
  unfolding read_secret
  basic_password (some pass) ref user_secret = ok pass
  basic_password none none user_secret = ok ""
  basic_password none (some ref) user_secret =
      if not (is_of_name user_secret ref.name) then read_secret ref else ok ""

  unfoldable pub bearer_token : Option String → Option SecretKeySelector → Result Failure String
  unfolding read_secret
  bearer_token (some token) ref = ok token
  bearer_token none none = ok ""
  bearer_token none (some ref) = read_secret ref

  unfoldable pub authenticator_of :
      Option BasicAuthSpec → Option BearerAuthSpec → Result Failure Authenticator
  unfolding basic_user basic_password bearer_token
  authenticator_of (some spec) bearer =
      basic_user spec.username spec.username_secret_ref >>= λ (user, user_secret).
      basic_password spec.password spec.password_secret_ref user_secret >>= λ pass.
      ok (basic_authenticator user pass)
  authenticator_of none (some spec) =
      bearer_token spec.token spec.token_secret_ref >>= λ token. ok (bearer_authenticator token)
  authenticator_of none none = ok noop_authenticator

  -- newAuthenticator, of the auth of a repository's spec.
  unfoldable pub new_authenticator : Option AuthSpec → Result Failure Authenticator
  unfolding authenticator_of
  new_authenticator none = ok noop_authenticator
  new_authenticator (some auth) = authenticator_of auth.basic auth.bearer
