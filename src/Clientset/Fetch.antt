-- ===== src/Clientset/Fetch.antt =====
-- internal/repo/client/defaultclient.go: what the client of one repository fetches, and what it keeps.
-- The mutex of an item makes each fetch of its url one step. net/http, net/url and the decoder of
-- sigs.k8s.io/yaml are parameters. Times are numbers.
use glasskube.Base.{
  ℕ, ◌+◌, String, Bool, false, ltb, Option, none, some, List, [], ◌∷◌, str_eq, Result, ok, err,
  ◌>>=◌, if◌then◌else◌,
}
use glasskube.Assoc.{get, put, string_key}
use glasskube.Manifest.{PackageManifest}
use glasskube.Repo.Types.{PackageIndex, PackageRepoIndexItem}
use glasskube.Clientset.Auth.{Authenticator}
use glasskube.Clientset.Response.{
  Response, ResponseError, status_error, is_error_response, is_json_or_yaml,
}

-- An item of the cache; `updated` is `none` for the zero time.
pub record CacheItem : Type 0 where
  pub bytes : String
  pub updated : Option ℕ

pub data FetchError : Type 0 where
  bad_url bad_request request_failed read_failed decoding_failed : String → FetchError
  bad_response : ResponseError → FetchError

-- The world in the state `W`: its clock, http.NewRequest (an error, if any), and the answer to a GET.
pub record Web (W : Type 0) : Type 0 where
  pub clock : W → ℕ
  pub new_request : String → Option String
  pub send : W → Authenticator → String → W × Result String Response
  pub trim_space : String → String
  -- url.JoinPath and url.PathEscape
  pub join_path : String → List String → Result String String
  pub path_escape : String → String

-- defaultClient, without its cache.
pub record DefaultClient : Type 0 where
  pub url : String
  pub authenticator : Authenticator
  pub max_cache_age : ℕ

-- yaml.Unmarshal into a target of each type.
pub record Decoders : Type 0 where
  pub repo_index : String → Result String (List PackageRepoIndexItem)
  pub package_index : String → Result String PackageIndex
  pub manifest : String → Result String PackageManifest

module _ {W : Type 0} (web : Web W) (c : DefaultClient) where
  -- The state of the world, and the cache.
  abbrev pub Cache : Type 0
  Cache = W × List (String × CacheItem)

  abbrev pub new_item : CacheItem
  new_item = record { bytes = ""; updated = none }

  abbrev pub or_new_item : Option CacheItem → CacheItem
  or_new_item none = new_item
  or_new_item (some item) = item

  -- cached.updated.Add(c.maxCacheAge).After(time.Now())
  unfoldable pub is_fresh : ℕ → Option ℕ → Bool
  is_fresh now none = false
  is_fresh now (some t) = ltb now (t + c.max_cache_age)

  abbrev pub body_of : Response → Option ResponseError → Result FetchError String
  body_of r (some e) = err (bad_response e)
  body_of r none = elim r.body [ err e ↦ err (read_failed e) | ok bytes ↦ ok bytes ]

  -- CheckResponse, IsJsonOrYaml and io.ReadAll
  unfoldable pub read_response : Result String Response → Result FetchError String
  unfolding is_error_response is_json_or_yaml
  read_response (err e) = err (request_failed e)
  read_response (ok r) =
      if is_error_response r
      then err (bad_response (status_error r.status_code))
      else body_of r (is_json_or_yaml web.trim_space r)

  module _ {A : Type 0} (decode : String → Result String A) where
    abbrev pub decoded : Result String A → Result FetchError A
    decoded (err e) = err (decoding_failed e)
    decoded (ok a) = ok a

    -- Only bytes that can be decoded are kept.
    abbrev pub keep :
        String
        → W
        → List (String × CacheItem)
        → String
        → Result FetchError A
        → Cache × Result FetchError A
    keep url w cache bytes (err e) = ((w, cache), err e)
    keep url w cache bytes (ok a) =
        ((w, put cache url (record { bytes = bytes; updated = some (web.clock w) })), ok a)

    abbrev pub receive :
        String
        → W
        → List (String × CacheItem)
        → Result FetchError String
        → Cache × Result FetchError A
    receive url w cache (err e) = ((w, cache), err e)
    receive url w cache (ok bytes) = keep url w cache bytes (decoded (decode bytes))

    -- The request of a cache miss.
    unfoldable pub request :
        String → W → List (String × CacheItem) → Option String → Cache × Result FetchError A
    unfolding read_response
    request url w cache (some e) = ((w, cache), err (bad_request e))
    request url w cache none =
        let (w', reply) = web.send w c.authenticator url in
        receive url w' cache (read_response reply)

    -- fetchYAMLOrJSON
    unfoldable pub fetch_yaml_or_json : Cache → String → Cache × Result FetchError A
    unfolding is_fresh request
    fetch_yaml_or_json (w, cache) url =
        let item = or_new_item (get cache url) in
        let stored = put cache url item in
        if is_fresh (web.clock w) item.updated
        then ((w, stored), decoded (decode item.bytes))
        else request url w stored (web.new_request url)

    abbrev pub fetch_at : Cache → Result String String → Cache × Result FetchError A
    unfolding fetch_yaml_or_json
    fetch_at s (err e) = (s, err (bad_url e))
    fetch_at s (ok url) = fetch_yaml_or_json s url

  module _ (decoders : Decoders) where
    -- GetPackageManifestURL
    unfoldable pub package_manifest_url : String → String → Result String String
    package_manifest_url name version =
        web.join_path c.url (web.path_escape name ∷ web.path_escape version ∷ "package.yaml" ∷ [])

    -- FetchPackageManifest
    unfoldable pub fetch_package_manifest :
        Cache → String → String → Cache × Result FetchError PackageManifest
    unfolding package_manifest_url fetch_yaml_or_json
    fetch_package_manifest s name version =
        fetch_at decoders.manifest s (package_manifest_url name version)

    -- FetchPackageIndex, with getPackageIndexURL
    unfoldable pub fetch_package_index : Cache → String → Cache × Result FetchError PackageIndex
    unfolding fetch_yaml_or_json
    fetch_package_index s name =
        fetch_at decoders.package_index s
          (web.join_path c.url (web.path_escape name ∷ "versions.yaml" ∷ []))

    -- FetchPackageRepoIndex, with getPackageRepoIndexURL
    unfoldable pub fetch_package_repo_index :
        Cache → Cache × Result FetchError (List PackageRepoIndexItem)
    unfolding fetch_yaml_or_json
    fetch_package_repo_index s =
        fetch_at decoders.repo_index s (web.join_path c.url ("index.yaml" ∷ []))

    abbrev pub manifest_at :
        String
        → Cache × Result FetchError PackageIndex
        → Cache × Result FetchError (String × PackageManifest)
    unfolding fetch_package_manifest
    manifest_at name (s, err e) = (s, err e)
    manifest_at name (s, ok index) =
        let (s', reply) = fetch_package_manifest s name index.latest_version in
        (s', reply >>= λ manifest. ok (index.latest_version, manifest))

    -- FetchLatestPackageManifest
    unfoldable pub fetch_latest_package_manifest :
        Cache → String → Cache × Result FetchError (String × PackageManifest)
    unfolding fetch_package_index fetch_package_manifest
    fetch_latest_package_manifest s name = manifest_at name (fetch_package_index s name)

    -- The loop of GetLatestVersion; a package that is not there has the version "".
    unfoldable pub latest_version_in : List PackageRepoIndexItem → String → String
    latest_version_in [] name = ""
    latest_version_in (item ∷ items) name =
        if str_eq item.name name then item.latest_version else latest_version_in items name

    -- GetLatestVersion
    unfoldable pub latest_version_of : Cache → String → Cache × Result FetchError String
    unfolding fetch_package_repo_index latest_version_in
    latest_version_of s name =
        let (s', reply) = fetch_package_repo_index s in
        (s', reply >>= λ items. ok (latest_version_in items name))
