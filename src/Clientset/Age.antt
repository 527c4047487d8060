-- ===== src/Clientset/Age.antt =====
-- How old what a repository client answers can be.
use mathlib.Core.Path.{subst}
use glasskube.Base.{
  ℕ, ◌+◌, ◌≤◌, String, ◌≡◌, refl, sym, ap, ◌∙◌, true, Option, none, some, List, str_eq, Result, ok,
  err, Bool-cases, Option-cases, inl, inr, arith, eq_iff,
}
use glasskube.Assoc.{get, put, get-put, string_key}
use glasskube.Clientset.Fetch.{
  CacheItem, FetchError, Web, DefaultClient, Cache, or_new_item, is_fresh, read_response, decoded,
  keep, receive, request, fetch_yaml_or_json,
}

module _ {W : Type 0} (web : Web W) (c : DefaultClient) (Served : String → ℕ → String → Type 0)
    {A : Type 0} (decode : String → Result String A) where
  -- What is kept under a url was served for it at the time that is kept with it.
  abbrev pub IsServedCache : List (String × CacheItem) → Type 0
  IsServedCache cache =
      (url : String) (item : CacheItem) (t : ℕ)
      → get cache url ≡ some item
      → item.updated ≡ some t
      → Served url t item.bytes

  -- A body that is read of an answer was served for the url at the time of the answer.
  abbrev pub Serves : Type 0
  Serves =
      (w : W) (url bytes : String)
      → read_response web c (web.send w c.authenticator url).1 ≡ ok bytes
      → Served url (web.clock (web.send w c.authenticator url).0) bytes

  -- The answer was served for the url, at most the age of the cache ago.
  abbrev pub IsRecentAnswer : String → W → Result FetchError A → Type 0
  IsRecentAnswer url w (err e) = Unit
  IsRecentAnswer url w (ok a) =
      (t : ℕ) × (bytes : String) × Served url t bytes
      × (decode bytes ≡ ok a)
      × (web.clock w ≤ t + c.max_cache_age)

  abbrev pub IsGood : String → Cache web c × Result FetchError A → Type 0
  IsGood url ((w, cache), reply) = IsServedCache cache × IsRecentAnswer url w reply

  put-IsServedCache :
      (cache : List (String × CacheItem)) (url : String) (item : CacheItem)
      → IsServedCache cache
      → ((t : ℕ) → item.updated ≡ some t → Served url t item.bytes)
      → IsServedCache (put cache url item)
  put-IsServedCache cache url item served h name found t e is_t =
      let looked_up = sym (get-put cache url name item) ∙ e in
      elim (Bool-cases (str_eq url name)) [
        | inl same ↦
            let is_it : item ≡ found = cc (rw same at looked_up) in
            subst (λ (n : String). Served n t found.bytes) ((eq_iff url name).0 same)
              (subst (λ (i : CacheItem). Served url t i.bytes) is_it
                (h t (ap (λ (i : CacheItem). i.updated) is_it ∙ is_t)))
        | inr other ↦ served name found t (rw other at looked_up) is_t
      ]

  decoded-answer :
      (url : String) (w : W) (t : ℕ) (bytes : String) (r : Result String A)
      → decode bytes ≡ r
      → Served url t bytes
      → web.clock w ≤ t + c.max_cache_age
      → IsRecentAnswer url w (decoded web c decode r)
  decoded-answer url w t bytes (err e) is_r served recent = tt
  decoded-answer url w t bytes (ok a) is_r served recent = (t, bytes, served, is_r, recent)

  keep-IsGood :
      (url : String) (w : W) (cache : List (String × CacheItem)) (bytes : String)
      (r : Result String A)
      → decode bytes ≡ r
      → Served url (web.clock w) bytes
      → IsServedCache cache
      → IsGood url (keep web c decode url w cache bytes (decoded web c decode r))
  keep-IsGood url w cache bytes (err e) is_r served good = (good, tt)
  keep-IsGood url w cache bytes (ok a) is_r served good = (
    put-IsServedCache cache url (record { bytes = bytes; updated = some (web.clock w) }) good
        (λ t e.
          let now : web.clock w ≡ t = cc e in subst (λ (u : ℕ). Served url u bytes) now served),
    (web.clock w, bytes, served, is_r, omega arith),
  )

  receive-IsGood :
      (url : String) (w : W) (cache : List (String × CacheItem)) (r : Result FetchError String)
      → ((bytes : String) → r ≡ ok bytes → Served url (web.clock w) bytes)
      → IsServedCache cache
      → IsGood url (receive web c decode url w cache r)
  receive-IsGood url w cache (err e) served good = (good, tt)
  receive-IsGood url w cache (ok bytes) served good =
      keep-IsGood url w cache bytes (decode bytes) refl (served bytes refl) good

  request-IsGood :
      (url : String) (w : W) (cache : List (String × CacheItem)) (refused : Option String)
      → Serves
      → IsServedCache cache
      → IsGood url (request web c decode url w cache refused)
  unfolding request
  request-IsGood url w cache (some e) serves good = (good, tt)
  request-IsGood url w cache none serves good =
      receive-IsGood url (web.send w c.authenticator url).0 cache
        (read_response web c (web.send w c.authenticator url).1) (serves w url) good

  known_item :
      (cache : List (String × CacheItem)) (url : String)
      → IsServedCache cache
      → (t : ℕ) → (or_new_item web c (get cache url)).updated ≡ some t
      → Served url t (or_new_item web c (get cache url)).bytes
  known_item cache url good t e = elim (Option-cases (get cache url)) [
    | inl unknown ↦ cc (unknown, e)
    | inr (item, known) ↦ rw known (good url item t known (rw known at e))
  ]

  is_fresh-lt :
      (now : ℕ) (updated : Option ℕ)
      → is_fresh web c now updated ≡ true
      → (t : ℕ) × (updated ≡ some t) × (now ≤ t + c.max_cache_age)
  unfolding is_fresh
  is_fresh-lt now none e = cc
  is_fresh-lt now (some t) e = (t, refl, ground arith)

  fetch-IsGood :
      (w : W) (cache : List (String × CacheItem)) (url : String)
      → Serves
      → IsServedCache cache
      → IsGood url (fetch_yaml_or_json web c decode (w, cache) url)
  unfolding fetch_yaml_or_json
  fetch-IsGood w cache url serves good =
      let item = or_new_item web c (get cache url) in
      let stored = put-IsServedCache cache url item good (known_item cache url good) in
      elim (Bool-cases (is_fresh web c (web.clock w) item.updated)) [
        | inl fresh ↦
            let (t, is_t, recent) = is_fresh-lt (web.clock w) item.updated fresh in
            rw fresh (
              stored,
              decoded-answer url w t item.bytes (decode item.bytes) refl
                  (known_item cache url good t is_t) recent,
            )
        | inr stale ↦
            rw stale (request-IsGood url w (put cache url item) (web.new_request url) serves stored)
      ]

-- Where every kept body was served for its url at the time kept with it, and every answer that can be
-- read is a body served at the time of the answer, a fetch keeps this so, and what it returns is
-- decoded from a body that was served for its url at most the age of the cache ago.
pub fetch_yaml_or_json-IsGood :
    {W : Type 0} (web : Web W) (c : DefaultClient) (Served : String → ℕ → String → Type 0)
    {A : Type 0} (decode : String → Result String A) (w : W) (cache : List (String × CacheItem))
    (url : String)
    → Serves web c Served decode
    → IsServedCache web c Served decode cache
    → IsGood web c Served decode url (fetch_yaml_or_json web c decode (w, cache) url)
fetch_yaml_or_json-IsGood web c Served decode w cache url serves good =
    fetch-IsGood web c Served decode w cache url serves good
