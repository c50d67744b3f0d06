-- ===== src/HttpCache/Stored.antt =====
-- pipeline/cache.go: what is stored comes back, as long as it lives and is not invalidated.
use aoni.Base.{
  ℕ, ◌+◌, ◌-◌, ◌/◌, ◌≤◌, ◌<◌, ◌==◌, ◌≡◌, refl, sym, ap, ◌∙◌, inl, inr, true, false, ◌||◌, List, [],
  ◌∷◌, none, some, arith, ltb, leb, any, All, Bool-cases,
}
use aoni.Base.Int.{pos}
use aoni.Base.Text.{Text, bytes, text_eq, text_eq_refl, eq_of_text_eq, is_empty}
use aoni.Cache.{live, get, set_entry}
use aoni.HttpCache.Keys.{Library, compute_cookie_indices_hash}
use aoni.HttpCache.{
  Request, Response, CacheKey, key_eq, CacheConfig, Codec, Store, all, IsUtf8, get_header,
  set_header, one_second, match_vary_headers, vary_pairs, extract_vary_headers, cache_control,
  resolve_effective_cookie_indices, resolve_effective_no_vary_search, lookup_key, save_key,
  lifetime_of, is_storable, cached_response, save_body, save_to_cache, decoded, refuses_cache,
  get_cache, invalid_key, invalidate_cache,
}

-- A GET request with a response that may be stored, and has no header Cookie-Indices and no header
-- No-Vary-Search, so that it is stored under the key under which it is looked for.
pub record IsCacheable (lib : Library) (req : Request) (resp : Response) : Type 0 where
  pub is_get : req.method ≡ bytes "GET"
  pub is_ok : resp.status_code ≡ 200
  pub may_store : lib.has_directive (cache_control lib resp.header) (bytes "no-store") ≡ false
  pub is_public : lib.has_directive (cache_control lib resp.header) (bytes "private") ≡ false
  pub varies : text_eq (get_header lib resp.header (bytes "Vary")) (bytes "*") ≡ false
  pub no_indices : get_header lib resp.header (bytes "Cookie-Indices") ≡ []
  pub no_vary_search : get_header lib resp.header (bytes "No-Vary-Search") ≡ []

-- A request that may be answered from the cache, for the URL and with the cookies of another one.
pub record Repeats (lib : Library) (req next : Request) : Type 0 where
  pub is_get : next.method ≡ bytes "GET"
  pub same_url : next.url ≡ req.url
  pub same_cookies : next.cookies ≡ req.cookies
  pub may_use : refuses_cache lib next ≡ false

pub key_eq_refl : (k : CacheKey) → key_eq k k ≡ true
unfolding key_eq
key_eq_refl k = rw (text_eq_refl k.method, text_eq_refl k.url, text_eq_refl k.cookie_hash) refl

module _ (lib : Library) (req : Request) (resp : Response) (cfg : CacheConfig)
    (c : IsCacheable lib req resp) where
  is_storable-IsCacheable : is_storable lib req resp ≡ true
  unfolding is_storable
  is_storable-IsCacheable =
      let is_get : text_eq req.method (bytes "GET") ≡ true = rw c.is_get refl in
      let is_ok : (resp.status_code == 200) ≡ true = rw c.is_ok refl in
      rw (is_get, is_ok, c.may_store, c.is_public, c.varies) refl

  save_key-Repeats :
      (next : Request) → Repeats lib req next → save_key lib req resp cfg ≡ lookup_key lib next cfg
  unfolding save_key lookup_key resolve_effective_cookie_indices resolve_effective_no_vary_search
  save_key-Repeats next r =
      rw (c.is_get, r.is_get, c.no_indices, c.no_vary_search, r.same_url, r.same_cookies) refl

  -- What is found under the key of a repeated request.
  pub found :
      (codec : Codec) (store : Store codec) (at now wall : ℕ) (body : Text) (next : Request)
      → resp.body ≡ some body
      → Repeats lib req next
      → get now (lookup_key lib next cfg) (save_to_cache lib codec at wall req resp cfg store)
        ≡ get now (lookup_key lib next cfg) (
            set_entry key_eq at
              (lookup_key lib next cfg)
              (codec.marshal (cached_response lib codec wall req resp body))
              (lifetime_of lib req resp cfg)
              store)
  unfolding save_to_cache
  found codec store at now wall body next b r =
      let k = lookup_key lib next cfg in
      let value = codec.marshal (cached_response lib codec wall req resp body) in
      rw is_storable-IsCacheable (
        ap (λ o. get now k (save_body lib codec at wall req resp cfg store o)) b
        ∙ ap (λ j. get now k (set_entry key_eq at j value (lifetime_of lib req resp cfg) store))
            (save_key-Repeats next r))

match_vary_headers-all :
    (lib : Library) (req : Request) (pairs : List (Text × Text))
    → match_vary_headers lib req pairs
      ≡ all (λ p. text_eq (get_header lib req.header p.0) p.1) pairs
unfolding match_vary_headers
match_vary_headers-all lib req [] = refl
match_vary_headers-all lib req ((k, v) ∷ pairs) =
    elim (Bool-cases (text_eq (get_header lib req.header k) v)) [
      | inl e ↦ rw e (match_vary_headers-all lib req pairs)
      | inr e ↦ rw e refl
    ]

-- The order that JSON gives the pairs does not matter.
pub match_vary_headers-reorder :
    (lib : Library) (codec : Codec) (req : Request) (pairs : List (Text × Text))
    → match_vary_headers lib req (codec.reorder pairs) ≡ match_vary_headers lib req pairs
match_vary_headers-reorder lib codec req pairs =
    match_vary_headers-all lib req (codec.reorder pairs)
    ∙ codec.all-reorder (λ p. text_eq (get_header lib req.header p.0) p.1) pairs
    ∙ sym (match_vary_headers-all lib req pairs)

vary_pairs-match :
    (lib : Library) (req next : Request) (names : List Text)
    → All (λ n. get_header lib next.header n ≡ get_header lib req.header n) names
    → match_vary_headers lib next (vary_pairs lib req names) ≡ true
unfolding match_vary_headers vary_pairs
vary_pairs-match lib req next [] h = refl
vary_pairs-match lib req next (n ∷ names) (e, h) =
    let rest = vary_pairs-match lib req next names h in
    elim (Bool-cases (is_empty n || text_eq n (bytes "*"))) [
      | inl q ↦ rw q rest
      | inr q ↦ rw (q, e, text_eq_refl (get_header lib req.header n)) rest
    ]

extract_vary_headers-match :
    (lib : Library) (req next : Request) (vary : Text)
    → All (λ n. get_header lib next.header n ≡ get_header lib req.header n) (lib.directives vary)
    → match_vary_headers lib next (extract_vary_headers lib req vary) ≡ true
unfolding extract_vary_headers match_vary_headers
extract_vary_headers-match lib req next vary h = elim (Bool-cases (is_empty vary)) [
  | inl q ↦ rw q refl
  | inr q ↦ rw q (vary_pairs-match lib req next (lib.directives vary) h)
]

get-set_entry :
    (codec : Codec) (k : CacheKey) (at now ttl : ℕ) (val : codec.Payload) (store : Store codec)
    → now ≤ at + ttl
    → get now k (set_entry key_eq at k val (pos ttl) store) ≡ some val
unfolding get set_entry live
get-set_entry codec k at now ttl val store h =
    let alive : ltb (at + ttl) now ≡ false = ground arith in rw (key_eq_refl k, alive) refl

-- A response with the status 200 to a GET request comes back, with its status, its body and its headers
-- but for Age, when a GET request for the same URL and with the same cookies looks for it before its
-- lifetime is over, sends the same values for the headers that Vary lists, and has no no-cache and no
-- no-store in its Cache-Control. The response has no no-store and no private in its Cache-Control, its
-- Vary is not `*`, it has no Cookie-Indices and no No-Vary-Search, its body can be read, and the texts
-- that are stored are valid UTF-8. Of a header with more than one line the first one counts. The age
-- is the number of seconds since it was stored, which was after the zero time.
pub get_cache-save_to_cache :
    (lib : Library) (codec : Codec) (req next : Request) (resp : Response) (cfg : CacheConfig)
    (store : Store codec) (at now wall later ttl : ℕ) (body : Text)
    → IsCacheable lib req resp
    → resp.body ≡ some body
    → IsUtf8 codec.valid (cached_response lib codec wall req resp body)
    → 0 < wall
    → Repeats lib req next
    → All
        (λ n. get_header lib next.header n ≡ get_header lib req.header n)
        (lib.directives (get_header lib resp.header (bytes "Vary")))
    → lifetime_of lib req resp cfg ≡ pos ttl
    → now ≤ at + ttl
    → get_cache lib codec now later next cfg (save_to_cache lib codec at wall req resp cfg store)
      ≡ some (record {
        status_code = 200;
        header =
            set_header lib (bytes "Age") (lib.format ((later - wall) / one_second)) resp.header;
        body = some body;
      })
unfolding get_cache cached_response
get_cache-save_to_cache lib codec req next resp cfg store at now wall later ttl body c b u w r same
      t h =
    let started : (wall == 0) ≡ false = ground arith in
    let is_get : text_eq next.method (bytes "GET") ≡ true = rw r.is_get refl in
    let k = lookup_key lib next cfg in
    let value = codec.marshal (cached_response lib codec wall req resp body) in
    let hit =
      found lib req resp cfg c codec store at now wall body next b r
      ∙ ap (λ d. get now k (set_entry key_eq at k value d store)) t
      ∙ get-set_entry codec k at now ttl value store h in
    let names = get_header lib resp.header (bytes "Vary") in
    let vary : match_vary_headers lib next
          (codec.reorder (cached_response lib codec wall req resp body).vary_headers)
        ≡ true =
      match_vary_headers-reorder lib codec next (extract_vary_headers lib req names)
      ∙ extract_vary_headers-match lib req next names same in
    rw
      (
        is_get,
        r.may_use,
        hit,
        codec.unmarshal-marshal (cached_response lib codec wall req resp body) u,
        started,
        vary,
        codec.from_base64-base64 body,
        c.is_ok,
      )
      refl

invalid_key-eq :
    (lib : Library) (req next : Request) (cfg : CacheConfig)
    → next.method ≡ bytes "GET"
    → next.url ≡ req.url
    → compute_cookie_indices_hash lib next.cookies cfg.cookie_indices ≡ []
    → lookup_key lib next cfg ≡ invalid_key lib req cfg
unfolding lookup_key
invalid_key-eq lib req next cfg m u h = rw (m, u, h) refl

emptied :
    (codec : Codec) (k : CacheKey) (at now : ℕ) (store : Store codec)
    → decoded codec (get now k (set_entry key_eq at k codec.nil (pos 0) store)) ≡ none
unfolding get set_entry live
emptied codec k at now store = elim (Bool-cases (ltb (at + 0) now)) [
  | inl e ↦ rw (key_eq_refl k, e) refl
  | inr e ↦ rw (key_eq_refl k, e) codec.unmarshal-nil
]

-- After a POST, PUT, DELETE or PATCH request whose response has a status below 400, a request for the
-- same URL finds nothing in the cache, if none of the cookies by which the configuration tells
-- responses apart goes with it.
get_cache-invalidate_cache :
    (lib : Library) (codec : Codec) (req next : Request) (resp : Response) (cfg : CacheConfig)
    (store : Store codec) (at now wall : ℕ)
    → any (text_eq req.method) (bytes "POST" ∷ bytes "PUT" ∷ bytes "DELETE" ∷ bytes "PATCH" ∷ [])
      ≡ true
    → resp.status_code < 400
    → next.url ≡ req.url
    → compute_cookie_indices_hash lib next.cookies cfg.cookie_indices ≡ []
    → get_cache lib codec now wall next cfg (invalidate_cache lib codec at req resp cfg store)
      ≡ none
unfolding get_cache invalidate_cache
get_cache-invalidate_cache lib codec req next resp cfg store at now wall unsafe ok url plain =
    let good : leb 400 resp.status_code ≡ false = ground arith in
    elim (Bool-cases (text_eq next.method (bytes "GET"))) [
      | inr q ↦ rw q refl
      | inl q ↦ elim (Bool-cases (refuses_cache lib next)) [
        | inl u ↦ rw (q, u) refl
        | inr u ↦
            let k =
              invalid_key-eq lib req next cfg (eq_of_text_eq next.method (bytes "GET") q) url
                plain in
            rw (q, u, good, unsafe, k, emptied codec (invalid_key lib req cfg) at now store) refl
      ]
    ]
