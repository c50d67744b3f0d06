-- ===== src/HttpCache.antt =====
-- pipeline/cache.go: the HTTP cache of the pipeline, on the in-memory store of resiliency/cache/cache.go.
-- http.Header is the function from the keys of the map to their values, and is not nil.
pub mod Keys
pub mod Stored
pub mod Vary
mod Tests
use aoni.Base.{
  ℕ, zero, suc, ◌+◌, ◌-◌, ◌/◌, ◌<◌, ◌==◌, ◌≡◌, Bool, true, false, not, ◌&&◌, ◌||◌, List, [], ◌∷◌,
  ◌++◌, Option, none, some, ltb, leb, if◌then◌else◌, any, map, All,
}
use aoni.Base.Int.{ℤ, pos, negsuc, pos_part}
use aoni.Base.Text.{Text, bytes, text_eq, is_empty}
use aoni.Cache.{Entry, get, set_entry}
use aoni.HttpCache.Keys.{
  NoVarySearchConfig, default_no_vary_search, Library, normalize_cache_url,
  compute_cookie_indices_hash, contains, parse_cookie_indices_header, parse_no_vary_search_header,
}

abbrev pub Header : Type 0
Header = Text → List Text

abbrev pub first_value : List Text → Text
first_value [] = []
first_value (v ∷ vs) = v

-- Header.Get
abbrev pub get_header : Library → Header → Text → Text
get_header lib header k = first_value (header (lib.canonical k))

-- Header.Set
abbrev pub set_header : Library → Text → Text → Header → Header
set_header lib k v header j = if text_eq j (lib.canonical k) then v ∷ [] else header j

-- cache_ttl is CacheTTL of the request's configuration, 0 where it has none or a limit that is not
-- positive.
pub record Request : Type 0 where
  pub method : Text
  pub url : Text
  pub header : Header
  pub cookies : List (Text × Text)
  pub cache_ttl : ℕ

-- body is none where reading it fails.
pub record Response : Type 0 where
  pub status_code : ℕ
  pub header : Header
  pub body : Option Text

pub record CacheKey : Type 0 where
  pub method : Text
  pub url : Text
  pub cookie_hash : Text

unfoldable pub key_eq : CacheKey → CacheKey → Bool
key_eq a b =
    text_eq a.method b.method && (text_eq a.url b.url && text_eq a.cookie_hash b.cookie_hash)

-- vary_headers has the pairs of the map. cached_at is the wall clock in nanoseconds from the zero time.
pub record CachedResponse : Type 0 where
  pub header : Header
  pub vary_headers : List (Text × Text)
  pub body_base64 : Text
  pub status_code : ℕ
  pub cached_at : ℕ

-- A configuration with a store; no_vary_search is none for nil.
pub record CacheConfig : Type 0 where
  pub default_ttl : ℤ
  pub no_vary_search : Option NoVarySearchConfig
  pub cookie_indices : List Text

abbrev pub all : (Text × Text → Bool) → List (Text × Text) → Bool
all P [] = true
all P (p ∷ ps) = P p && all P ps

-- All texts of the response are valid UTF-8.
pub record IsUtf8 (valid : Text → Bool) (c : CachedResponse) : Type 0 where
  pub values : (k : Text) → All (λ v. valid v ≡ true) (c.header k)
  pub names : (k : Text) → valid k ≡ false → c.header k ≡ []
  pub vary : All (λ p. (valid p.0 ≡ true) × (valid p.1 ≡ true)) c.vary_headers
  pub body : valid c.body_base64 ≡ true

-- encoding/json, whose byte slices are Payload, and encoding/base64. JSON reads what it wrote where
-- the texts are valid UTF-8, which unicode/utf8 says, but gives the pairs of a map in an order of its
-- own and each of them once; a nil slice is not JSON; base64 is ASCII and decodes what it encoded.
pub record Codec : Type 1 where
  pub Payload : Type 0
  pub nil : Payload
  pub marshal : CachedResponse → Payload
  pub unmarshal : Payload → Option CachedResponse
  pub valid : Text → Bool
  pub reorder : List (Text × Text) → List (Text × Text)
  pub all-reorder :
      (P : Text × Text → Bool) (pairs : List (Text × Text)) → all P (reorder pairs) ≡ all P pairs
  pub unmarshal-marshal :
      (c : CachedResponse)
      → IsUtf8 valid c
      → unmarshal (marshal c) ≡ some (record c { vary_headers = reorder c.vary_headers })
  pub unmarshal-nil : unmarshal nil ≡ none
  pub base64 : Text → Text
  pub from_base64 : Text → Text
  pub from_base64-base64 : (t : Text) → from_base64 (base64 t) ≡ t
  pub valid-base64 : (t : Text) → valid (base64 t) ≡ true

abbrev pub Store : Codec → Type 0
Store codec = CacheKey → Option (Entry codec.Payload)

abbrev one_second : ℕ
one_second = 1000000000

unfoldable pub match_vary_headers : Library → Request → List (Text × Text) → Bool
match_vary_headers lib req [] = true
match_vary_headers lib req ((k, expected) ∷ rest) =
    if not (text_eq (get_header lib req.header k) expected)
    then false
    else match_vary_headers lib req rest

unfoldable pub vary_pairs : Library → Request → List Text → List (Text × Text)
vary_pairs lib req [] = []
vary_pairs lib req (n ∷ ns) =
    let rest = vary_pairs lib req ns in
    if is_empty n || text_eq n (bytes "*") then rest else (n, get_header lib req.header n) ∷ rest

unfoldable pub extract_vary_headers : Library → Request → Text → List (Text × Text)
extract_vary_headers lib req vary =
    if is_empty vary then [] else vary_pairs lib req (lib.directives vary)

abbrev pub cache_control : Library → Header → Text
cache_control lib header = get_header lib header (bytes "Cache-Control")

abbrev expires : Library → Text → Option ℤ
expires lib exp =
    if is_empty exp
    then none
    else elim (lib.time_until exp) [ none ↦ none | some d ↦ some (pos (pos_part d)) ]

unfoldable pub parse_freshness_lifetime : Library → Response → Option ℤ
parse_freshness_lifetime lib resp =
    let cc = cache_control lib resp.header in
    elim (lib.directive_duration cc (bytes "s-maxage")) [
      | some d ↦ some (pos d)
      | none ↦ elim (lib.directive_duration cc (bytes "max-age")) [
        | some d ↦ some (pos d)
        | none ↦ expires lib (get_header lib resp.header (bytes "Expires"))
      ]
    ]

unfoldable pub resolve_effective_cookie_indices : Library → Response → CacheConfig → List Text
resolve_effective_cookie_indices lib resp cfg =
    let header = get_header lib resp.header (bytes "Cookie-Indices") in
    if is_empty header
    then cfg.cookie_indices
    else parse_cookie_indices_header lib header ++ cfg.cookie_indices

abbrev extended : NoVarySearchConfig → Option NoVarySearchConfig → NoVarySearchConfig
extended parsed none = parsed
extended parsed (some cfg) = record parsed {
  ignore_params = parsed.ignore_params ++ cfg.ignore_params;
}

unfoldable pub resolve_effective_no_vary_search :
    Library → Response → CacheConfig → Option NoVarySearchConfig
resolve_effective_no_vary_search lib resp cfg =
    let header = get_header lib resp.header (bytes "No-Vary-Search") in
    if is_empty header
    then cfg.no_vary_search
    else some (extended (parse_no_vary_search_header header) cfg.no_vary_search)

unfoldable pub lookup_key : Library → Request → CacheConfig → CacheKey
lookup_key lib req cfg = record {
  method = req.method;
  url = normalize_cache_url lib req.url cfg.no_vary_search;
  cookie_hash = compute_cookie_indices_hash lib req.cookies cfg.cookie_indices;
}

unfoldable pub save_key : Library → Request → Response → CacheConfig → CacheKey
save_key lib req resp cfg = record {
  method = req.method;
  url = normalize_cache_url lib req.url (resolve_effective_no_vary_search lib resp cfg);
  cookie_hash =
      compute_cookie_indices_hash lib req.cookies (resolve_effective_cookie_indices lib resp cfg);
}

unfoldable pub lifetime_of : Library → Request → Response → CacheConfig → ℤ
lifetime_of lib req resp cfg =
    if ltb 0 req.cache_ttl
    then pos req.cache_ttl
    else elim (parse_freshness_lifetime lib resp) [ none ↦ cfg.default_ttl | some ttl ↦ ttl ]

-- Whether saveToCache gets as far as reading the body.
unfoldable pub is_storable : Library → Request → Response → Bool
is_storable lib req resp =
    let cc = cache_control lib resp.header in
    if not (text_eq req.method (bytes "GET")) || not (resp.status_code == 200)
    then false
    else if lib.has_directive cc (bytes "no-store") || lib.has_directive cc (bytes "private")
    then false
    else not (text_eq (get_header lib resp.header (bytes "Vary")) (bytes "*"))

unfoldable pub cached_response : Library → Codec → ℕ → Request → Response → Text → CachedResponse
cached_response lib codec wall req resp body = record {
  header = resp.header;
  vary_headers = extract_vary_headers lib req (get_header lib resp.header (bytes "Vary"));
  body_base64 = codec.base64 body;
  status_code = resp.status_code;
  cached_at = wall;
}

abbrev pub save_body :
    Library
    → (codec : Codec) → ℕ
    → ℕ
    → Request
    → Response
    → CacheConfig
    → Store codec
    → Option Text
    → Store codec
save_body lib codec now wall req resp cfg store none = store
save_body lib codec now wall req resp cfg store (some body) =
    set_entry key_eq now (save_key lib req resp cfg)
      (codec.marshal (cached_response lib codec wall req resp body)) (lifetime_of lib req resp cfg)
      store

-- saveToCache, for a response that is not nil; now is the clock of the store and wall the wall clock.
unfoldable pub save_to_cache :
    Library → (codec : Codec) → ℕ → ℕ → Request → Response → CacheConfig → Store codec → Store codec
save_to_cache lib codec now wall req resp cfg store =
    if not (is_storable lib req resp)
    then store
    else save_body lib codec now wall req resp cfg store resp.body

abbrev pub response_of : Library → Codec → ℕ → CachedResponse → Response
response_of lib codec wall c = record {
  status_code = c.status_code;
  header =
      if c.cached_at == 0
      then c.header
      else set_header lib (bytes "Age") (lib.format ((wall - c.cached_at) / one_second)) c.header;
  body = some (codec.from_base64 c.body_base64);
}

abbrev pub checked : Library → Codec → ℕ → Request → Option CachedResponse → Option Response
checked lib codec wall req none = none
checked lib codec wall req (some c) =
    if not (match_vary_headers lib req c.vary_headers)
    then none
    else some (response_of lib codec wall c)

abbrev pub decoded : (codec : Codec) → Option codec.Payload → Option CachedResponse
decoded codec none = none
decoded codec (some t) = codec.unmarshal t

abbrev pub refuses_cache : Library → Request → Bool
refuses_cache lib req =
    let cc = cache_control lib req.header in
    contains cc (bytes "no-cache") || contains cc (bytes "no-store")

-- GetCache
unfoldable pub get_cache :
    Library → (codec : Codec) → ℕ → ℕ → Request → CacheConfig → Store codec → Option Response
get_cache lib codec now wall req cfg store =
    if not (text_eq req.method (bytes "GET"))
    then none
    else if refuses_cache lib req
    then none
    else checked lib codec wall req (decoded codec (get now (lookup_key lib req cfg) store))

abbrev is_unsafe : Text → Bool
is_unsafe m = any (text_eq m) (bytes "POST" ∷ bytes "PUT" ∷ bytes "DELETE" ∷ bytes "PATCH" ∷ [])

abbrev pub invalid_key : Library → Request → CacheConfig → CacheKey
invalid_key lib req cfg = record {
  method = bytes "GET";
  url = normalize_cache_url lib req.url cfg.no_vary_search;
  cookie_hash = [];
}

unfoldable pub invalidate_cache :
    Library → (codec : Codec) → ℕ → Request → Response → CacheConfig → Store codec → Store codec
invalidate_cache lib codec now req resp cfg store =
    if leb 400 resp.status_code
    then store
    else if is_unsafe req.method
    then set_entry key_eq now (invalid_key lib req cfg) codec.nil (pos 0) store
    else store
