-- ===== src/Clientset/Response.antt =====
-- What a response of a repository may be: internal/httperror and internal/contenttype.
-- strings.TrimSpace is the parameter `trim_space`.
use glasskube.Base.{
  ℕ, String, Bool, ◌||◌, Option, none, some, List, [], ◌∷◌, str_eq, Result, ok, err, leb,
  if◌then◌else◌,
}
use glasskube.Assoc.{contains, string_key}
use glasskube.Text.{split, split_n}

-- http.Response: its status code, its header Content-Type, and what io.ReadAll answers for the body.
pub record Response : Type 0 where
  pub status_code : ℕ
  pub content_type : String
  pub body : Result String String

pub record ContentType : Type 0 where
  pub media_type : String
  pub charset : String
  pub boundary : String

pub data ResponseError : Type 0 where
  unknown_directive invalid_directive unacceptable_media_type : String → ResponseError
  status_error : ℕ → ResponseError

-- httperror.IsErrorResponse
unfoldable pub is_error_response : Response → Bool
is_error_response r = leb 400 r.status_code

module _ (trim_space : String → String) where
  abbrev pub with_directive : String → List String → ContentType → Result ResponseError ContentType
  with_directive directive (name ∷ value ∷ []) result =
      if str_eq name "charset"
      then ok (record result { charset = value })
      else if str_eq name "boundary"
      then ok (record result { boundary = value })
      else err (unknown_directive directive)
  with_directive directive parts result = err (invalid_directive directive)

  -- The loop over the directives.
  unfoldable pub with_directives :
      List String → Result ResponseError ContentType → Result ResponseError ContentType
  unfolding split_n
  with_directives ds (err e) = err e
  with_directives [] (ok result) = ok result
  with_directives (d ∷ ds) (ok result) =
      with_directives ds (with_directive d (split_n "=" 2 (trim_space d)) result)

  abbrev pub content_type_of : List String → Result ResponseError ContentType
  unfolding with_directives
  content_type_of [] = ok (record { media_type = ""; charset = ""; boundary = "" })
  content_type_of (d ∷ ds) =
      with_directives ds (ok (record { media_type = trim_space d; charset = ""; boundary = "" }))

  -- ParseContentType
  unfoldable pub parse_content_type : String → Result ResponseError ContentType
  unfolding split with_directives
  parse_content_type value = content_type_of (split ";" value)

  abbrev pub accepted : List String → Result ResponseError ContentType → Option ResponseError
  accepted types (err e) = some e
  accepted types (ok c) =
      if str_eq c.media_type "" || contains types c.media_type
      then none
      else some (unacceptable_media_type c.media_type)

  -- HasMediaType
  unfoldable pub has_media_type : Response → List String → Option ResponseError
  unfolding parse_content_type contains
  has_media_type r types = accepted types (parse_content_type r.content_type)

  -- IsJsonOrYaml
  unfoldable pub is_json_or_yaml : Response → Option ResponseError
  unfolding has_media_type
  is_json_or_yaml r = has_media_type r (
      "application/json" ∷ "application/yaml" ∷ "application/octet-stream" ∷ "text/yaml"
      ∷ "text/plain" ∷ "text/x-yaml" ∷ "application/x-yaml" ∷ [])
