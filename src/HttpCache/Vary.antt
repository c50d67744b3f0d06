-- ===== src/HttpCache/Vary.antt =====
-- pipeline/cache.go: a response that varies with a header is not given to a request that differs in it.
use aoni.Base.{
  ℕ, zero, suc, ◌≡◌, ◌≢◌, refl, ◌∙◌, inl, inr, true, false, ◌||◌, List, [], ◌∷◌, none, some,
  get_elem?, Bool-cases,
}
use aoni.Base.Int.{ℤ}
use aoni.Base.Text.{Text, bytes, text_eq, eq_of_text_eq, is_empty}
use aoni.Cache.{add_ttl, after, live, get, set_entry}
use aoni.HttpCache.Keys.{Library}
use aoni.HttpCache.{
  Request, Response, CacheKey, key_eq, CachedResponse, CacheConfig, Codec, Store, IsUtf8,
  get_header, match_vary_headers, vary_pairs, extract_vary_headers, lookup_key, lifetime_of,
  cached_response, save_to_cache, decoded, checked, get_cache,
}
use aoni.HttpCache.Stored.{IsCacheable, Repeats, key_eq_refl, found, match_vary_headers-reorder}

differ : (s t : Text) → s ≢ t → text_eq s t ≡ false
differ s t h = elim (Bool-cases (text_eq s t)) [
  | inl e ↦ absurd (h (eq_of_text_eq s t e))
  | inr e ↦ e
]

vary_pairs-differ :
    (lib : Library) (req next : Request) (names : List Text) (i : ℕ) (n : Text)
    → get_elem? names i ≡ some n
    → is_empty n || text_eq n (bytes "*") ≡ false
    → text_eq (get_header lib next.header n) (get_header lib req.header n) ≡ false
    → match_vary_headers lib next (vary_pairs lib req names) ≡ false
unfolding match_vary_headers vary_pairs
vary_pairs-differ lib req next [] i n e named d = absurd (cc e)
vary_pairs-differ lib req next (m ∷ names) zero n e named d =
    let same : m ≡ n = cc e in rw (same, named, d) refl
vary_pairs-differ lib req next (m ∷ names) (suc i) n e named d =
    let rest = vary_pairs-differ lib req next names i n e named d in
    elim (Bool-cases (is_empty m || text_eq m (bytes "*"))) [
      | inl q ↦ rw q rest
      | inr q ↦
          elim (Bool-cases (text_eq (get_header lib next.header m) (get_header lib req.header m))) [
            | inl u ↦ rw (q, u) rest
            | inr u ↦ rw (q, u) refl
          ]
    ]

extract_vary_headers-differ :
    (lib : Library) (req next : Request) (vary : Text) (i : ℕ) (n : Text)
    → is_empty vary ≡ false
    → get_elem? (lib.directives vary) i ≡ some n
    → is_empty n || text_eq n (bytes "*") ≡ false
    → get_header lib next.header n ≢ get_header lib req.header n
    → match_vary_headers lib next (extract_vary_headers lib req vary) ≡ false
unfolding extract_vary_headers
extract_vary_headers-differ lib req next vary i n v e named d = rw v (
    vary_pairs-differ lib req next (lib.directives vary) i n e named
      (differ (get_header lib next.header n) (get_header lib req.header n) d))

-- Whatever is found under the key is refused.
refused :
    (lib : Library) (codec : Codec) (k : CacheKey) (at now later : ℕ) (ttl : ℤ)
    (store : Store codec) (next : Request) (c : CachedResponse)
    → IsUtf8 codec.valid c
    → match_vary_headers lib next c.vary_headers ≡ false
    → checked lib codec later next
        (decoded codec (get now k (set_entry key_eq at k (codec.marshal c) ttl store)))
      ≡ none
unfolding get set_entry live
refused lib codec k at now later ttl store next c u h =
    let same = match_vary_headers-reorder lib codec next c.vary_headers ∙ h in
    elim (Bool-cases (after now (add_ttl at ttl))) [
      | inl e ↦ rw (key_eq_refl k, e) refl
      | inr e ↦ rw (key_eq_refl k, e, codec.unmarshal-marshal c u, same) refl
    ]

-- After a response with the status 200 to a GET request was stored, a GET request for the same URL and
-- with the same cookies, without no-cache and no-store in its Cache-Control, finds nothing in the
-- cache, at any time, if it differs from the one that was answered in a header that Vary lists. The
-- response has no no-store and no private in its Cache-Control, its Vary is not `*`, it has no
-- Cookie-Indices and no No-Vary-Search, its body can be read, and the texts that are stored are valid
-- UTF-8. The header is named by a name that is neither empty nor `*`, and of a header with more than
-- one line the first one counts.
pub get_cache-Vary :
    (lib : Library) (codec : Codec) (req next : Request) (resp : Response) (cfg : CacheConfig)
    (store : Store codec) (at now wall later i : ℕ) (body n : Text)
    → IsCacheable lib req resp
    → resp.body ≡ some body
    → IsUtf8 codec.valid (cached_response lib codec wall req resp body)
    → Repeats lib req next
    → is_empty (get_header lib resp.header (bytes "Vary")) ≡ false
    → get_elem? (lib.directives (get_header lib resp.header (bytes "Vary"))) i ≡ some n
    → is_empty n || text_eq n (bytes "*") ≡ false
    → get_header lib next.header n ≢ get_header lib req.header n
    → get_cache lib codec now later next cfg (save_to_cache lib codec at wall req resp cfg store)
      ≡ none
unfolding get_cache cached_response
get_cache-Vary lib codec req next resp cfg store at now wall later i body n c b u r v e named d =
    let is_get : text_eq next.method (bytes "GET") ≡ true = rw r.is_get refl in
    let h =
      extract_vary_headers-differ lib req next (get_header lib resp.header (bytes "Vary")) i n v e
        named d in
    let hit = found lib req resp cfg c codec store at now wall body next b r in
    rw (is_get, r.may_use, hit)
      (refused lib codec (lookup_key lib next cfg) at now later (lifetime_of lib req resp cfg) store
        next (cached_response lib codec wall req resp body) u h)
