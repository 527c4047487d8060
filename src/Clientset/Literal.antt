-- ===== src/Clientset/Literal.antt =====
-- Which credentials the authenticators of package repositories have.
use glasskube.Base.{String, ◌≡◌, Option, none, some, ok, bind-eq-ok, Bool-cases, inl, inr}
use glasskube.Assoc.{get, string_key}
use glasskube.Clientset.Auth.{
  SecretKeySelector, BasicAuthSpec, BearerAuthSpec, AuthSpec, Authenticator, basic_authenticator,
  bearer_authenticator, noop_authenticator, Secret, SecretLibrary, secret_entry,
  get_key_from_secret, secret_named, basic_user, is_of_name, read_secret, basic_password,
  bearer_token, authenticator_of, new_authenticator,
}

abbrev pub or_empty : Option String → String
or_empty none = ""
or_empty (some s) = s

abbrev pub literals_of : Option BasicAuthSpec → Option BearerAuthSpec → Authenticator
literals_of (some spec) bearer =
    basic_authenticator (or_empty spec.username) (or_empty spec.password)
literals_of none (some spec) = bearer_authenticator (or_empty spec.token)
literals_of none none = noop_authenticator

-- The authenticator of the values that the spec itself holds, with "" for what it refers to.
abbrev pub literal_authenticator : Option AuthSpec → Authenticator
literal_authenticator none = noop_authenticator
literal_authenticator (some auth) = literals_of auth.basic auth.bearer

module _ (lib : SecretLibrary) where
  secret_entry-empty : (entry : Option String) {v : String} → secret_entry lib entry ≡ ok v → v ≡ ""
  secret_entry-empty none e = cc
  secret_entry-empty (some enc) e =
      let (done, decoded, same) = bind-eq-ok (lib.decode_into_nothing enc) _ e in cc same

  get_key_from_secret-empty :
      (secret : Secret) (key : String) {v : String}
      → get_key_from_secret lib secret key ≡ ok v
      → v ≡ ""
  unfolding get_key_from_secret
  get_key_from_secret-empty secret key e = secret_entry-empty (get secret.entries key) e

  read_secret-empty : (ref : SecretKeySelector) {v : String} → read_secret lib ref ≡ ok v → v ≡ ""
  unfolding read_secret
  read_secret-empty ref e =
      let (secret, fetched, read) = bind-eq-ok (secret_named lib ref) _ e in
      get_key_from_secret-empty secret ref.key read

  basic_user-literal :
      (user : Option String) (ref : Option SecretKeySelector) {u : String} {s : Option Secret}
      → basic_user lib user ref ≡ ok (u, s)
      → u ≡ or_empty user
  unfolding basic_user
  basic_user-literal (some user) ref e = cc
  basic_user-literal none none e = cc
  basic_user-literal none (some ref) e =
      let (secret, fetched, rest) = bind-eq-ok (secret_named lib ref) _ e in
      let (v, read, same) = bind-eq-ok (get_key_from_secret lib secret ref.key) _ rest in
      cc (same, get_key_from_secret-empty secret ref.key read)

  basic_password-literal :
      (pass : Option String) (ref : Option SecretKeySelector) (s : Option Secret) {p : String}
      → basic_password lib pass ref s ≡ ok p
      → p ≡ or_empty pass
  unfolding basic_password
  basic_password-literal (some pass) ref s e = cc
  basic_password-literal none none s e = cc
  basic_password-literal none (some ref) s e = elim (Bool-cases (is_of_name lib s ref.name)) [
    | inl same ↦ cc (rw same at e)
    | inr other ↦ read_secret-empty ref (rw other at e)
  ]

  bearer_token-literal :
      (token : Option String) (ref : Option SecretKeySelector) {t : String}
      → bearer_token lib token ref ≡ ok t
      → t ≡ or_empty token
  unfolding bearer_token
  bearer_token-literal (some token) ref e = cc
  bearer_token-literal none none e = cc
  bearer_token-literal none (some ref) e = read_secret-empty ref e

  authenticator_of-literal :
      (basic : Option BasicAuthSpec) (bearer : Option BearerAuthSpec) {a : Authenticator}
      → authenticator_of lib basic bearer ≡ ok a
      → a ≡ literals_of basic bearer
  unfolding authenticator_of
  authenticator_of-literal (some spec) bearer e =
      let ((user, s), is_user, rest) =
        bind-eq-ok (basic_user lib spec.username spec.username_secret_ref) _ e in
      let (pass, is_pass, same) =
        bind-eq-ok (basic_password lib spec.password spec.password_secret_ref s) _ rest in
      cc (
        same,
        basic_user-literal spec.username spec.username_secret_ref is_user,
        basic_password-literal spec.password spec.password_secret_ref s is_pass,
      )
  authenticator_of-literal none (some spec) e =
      let (token, is_token, same) =
        bind-eq-ok (bearer_token lib spec.token spec.token_secret_ref) _ e in
      cc (same, bearer_token-literal spec.token spec.token_secret_ref is_token)
  authenticator_of-literal none none e = cc

-- The authenticator that newAuthenticator makes has the user, the password and the token that the
-- spec itself holds, and an empty text for each that it refers to: what a secret holds is never used.
pub new_authenticator-literal :
    (lib : SecretLibrary) (auth : Option AuthSpec) (a : Authenticator)
    → new_authenticator lib auth ≡ ok a
    → a ≡ literal_authenticator auth
unfolding new_authenticator
new_authenticator-literal lib none a e = cc
new_authenticator-literal lib (some auth) a e =
    authenticator_of-literal lib auth.basic auth.bearer e
