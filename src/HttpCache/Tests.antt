-- ===== src/HttpCache/Tests.antt =====
-- Runs and instances for the HTTP cache.
use aoni.Base.{
  ℕ, ◌-◌, ◌/◌, ◌≡◌, ◌≢◌, refl, List, All, true, false, [], ◌∷◌, Option, none, some, arith,
  if◌then◌else◌,
}
use aoni.Base.Int.{pos}
use aoni.Base.Text.{Text, bytes, text_eq, text_eq_iff}
use aoni.Cache.{live, get, set_entry}
use aoni.HttpCache.Keys.{
  Library, normalize_cache_url, match_cookie, match_cookies, compute_cookie_indices_hash,
  after_pattern, before_parenthesis, fields, clean_params, parse_header_params_list,
  parse_no_vary_search_header,
}
use aoni.HttpCache.{
  Request, Response, key_eq, Header, IsUtf8, CachedResponse, CacheConfig, Codec, Store, set_header,
  vary_pairs, match_vary_headers, extract_vary_headers, parse_freshness_lifetime,
  resolve_effective_cookie_indices, resolve_effective_no_vary_search, lookup_key, save_key,
  lifetime_of, is_storable, cached_response, save_to_cache, get_cache, invalidate_cache,
}
use aoni.HttpCache.Stored.{IsCacheable, Repeats, get_cache-save_to_cache}
use aoni.HttpCache.Vary.{get_cache-Vary}

-- Each header value is taken for one directive.
abbrev library : Library
library = record {
  query = λ u. none;
  encode = λ u q. u;
  sort = λ l. l;
  digest = λ t. t;
  directives = λ t. t ∷ [];
  has_directive = λ t d. text_eq t d;
  directive_duration = λ t d. none;
  time_until = λ t. none;
  format = λ n. n ∷ [];
  equal_fold = text_eq;
  canonical = λ k. k;
}

abbrev kept_as_is : Codec
kept_as_is = record {
  Payload = Option CachedResponse;
  nil = none;
  marshal = λ c. some c;
  unmarshal = λ o. o;
  valid = λ t. true;
  reorder = λ l. l;
  all-reorder = λ P l. refl;
  unmarshal-marshal = λ c u. refl;
  unmarshal-nil = refl;
  base64 = λ t. t;
  from_base64 = λ t. t;
  from_base64-base64 = λ t. refl;
  valid-base64 = λ t. refl;
}

abbrev language : Text → Header
language l k = if text_eq k (bytes "Accept-Language") then l ∷ [] else []

abbrev asking : Text → Request
asking l = record {
  method = bytes "GET";
  url = bytes "https://a.b/c";
  header = language l;
  cookies = [];
  cache_ttl = 0;
}

abbrev page : Response
page = record {
  status_code = 200;
  header = λ k. if text_eq k (bytes "Vary") then bytes "Accept-Language" ∷ [] else [];
  body = some (bytes "page");
}

abbrev cfg : CacheConfig
cfg = record { default_ttl = pos 60; no_vary_search = none; cookie_indices = [] }

abbrev nothing : Store kept_as_is
nothing k = none

page-IsCacheable : IsCacheable library (asking (bytes "de")) page
page-IsCacheable = record {
  is_get = refl;
  is_ok = refl;
  may_store = refl;
  is_public = refl;
  varies = refl;
  no_indices = refl;
  no_vary_search = refl;
}

All-valid : (vs : List Text) → All (λ v. true ≡ true) vs
All-valid [] = tt
All-valid (v ∷ vs) = (refl, All-valid vs)

page-IsUtf8 :
    IsUtf8 kept_as_is.valid
      (cached_response library kept_as_is 10 (asking (bytes "de")) page (bytes "page"))
unfolding cached_response extract_vary_headers vary_pairs
page-IsUtf8 = record {
  values = λ k. All-valid (page.header k);
  names = λ k h. absurd (cc h);
  vary = ((refl, refl), tt);
  body = refl;
}

once_more : (l : Text) → Repeats library (asking (bytes "de")) (asking l)
unfolding after_pattern
once_more l = record { is_get = refl; same_url = refl; same_cookies = refl; may_use = refl }

get_cache-save_to_cache_example :
    get_cache library kept_as_is 40 40
      (asking (bytes "de"))
      cfg
      (save_to_cache library kept_as_is 10 10 (asking (bytes "de")) page cfg nothing)
    ≡ some (record {
      status_code = 200;
      header =
          set_header library (bytes "Age") (library.format ((40 - 10) / 1000000000)) page.header;
      body = some (bytes "page");
    })
unfolding lifetime_of parse_freshness_lifetime
get_cache-save_to_cache_example =
    get_cache-save_to_cache library kept_as_is (asking (bytes "de")) (asking (bytes "de")) page cfg
      nothing 10 40 10 40 60 (bytes "page") page-IsCacheable refl page-IsUtf8 (omega arith)
      (once_more (bytes "de")) (refl, tt) refl (omega arith)

other_language : bytes "fr" ≢ bytes "de"
other_language e =
    let same : false ≡ true = (text_eq_iff (bytes "fr") (bytes "de")).1 e in absurd (cc same)

get_cache-Vary_example :
    get_cache library kept_as_is 40 40
      (asking (bytes "fr"))
      cfg
      (save_to_cache library kept_as_is 10 10 (asking (bytes "de")) page cfg nothing)
    ≡ none
get_cache-Vary_example =
    get_cache-Vary library kept_as_is (asking (bytes "de")) (asking (bytes "fr")) page cfg nothing
      10 40 10 40 0 (bytes "page") (bytes "Accept-Language") page-IsCacheable refl page-IsUtf8
      (once_more (bytes "fr")) refl refl refl other_language

abbrev posting : Request
posting = record (asking []) { method = bytes "POST" }

-- Responses are told apart by the cookie lang.
abbrev by_cookie : CacheConfig
by_cookie = record cfg { cookie_indices = bytes "lang" ∷ [] }

abbrev german : Request
german = record (asking []) { cookies = (bytes "lang", bytes "de") ∷ [] }

abbrev plain_page : Response
plain_page = record page { header = λ k. [] }

abbrev status_of : Option Response → ℕ
status_of none = 0
status_of (some r) = r.status_code

-- What was stored for a cookie outlives a POST to its URL.
survives :
    status_of (
      get_cache library kept_as_is 40 40 german by_cookie (
        invalidate_cache library kept_as_is 20
          (record german { method = bytes "POST" })
          page
          by_cookie
          (save_to_cache library kept_as_is 10 10 german plain_page by_cookie nothing)))
    ≡ 200
unfolding get_cache invalidate_cache save_to_cache is_storable save_key lookup_key lifetime_of
    parse_freshness_lifetime resolve_effective_cookie_indices resolve_effective_no_vary_search
    normalize_cache_url compute_cookie_indices_hash match_cookies match_cookie cached_response
    extract_vary_headers match_vary_headers key_eq get set_entry live after_pattern
survives = refl

abbrev must_ask : Response
must_ask = record plain_page {
  header = λ k. if text_eq k (bytes "Cache-Control") then bytes "no-cache" ∷ [] else [];
}

-- A response that must not be used without asking the server is used.
used_unasked :
    status_of (
      get_cache library kept_as_is 40 40
        (asking [])
        cfg
        (save_to_cache library kept_as_is 10 10 (asking []) must_ask cfg nothing))
    ≡ 200
unfolding get_cache save_to_cache is_storable save_key lookup_key lifetime_of
    parse_freshness_lifetime resolve_effective_cookie_indices resolve_effective_no_vary_search
    normalize_cache_url compute_cookie_indices_hash match_cookies cached_response
    extract_vary_headers match_vary_headers key_eq get set_entry live after_pattern
used_unasked = refl

parsed : parse_no_vary_search_header (bytes "params=(\"a\" \"b\")") ≡ record {
  ignore_params = bytes "a" ∷ bytes "b" ∷ [];
  except_params = [];
  ignore_all_params = false;
}
unfolding parse_no_vary_search_header parse_header_params_list clean_params fields after_pattern
    before_parenthesis
parsed = refl
