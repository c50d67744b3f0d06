-- ===== src/Dns/Cache/Lookup.antt =====
-- dns/cache.go: LookupIPAddr of the cache, from what is cached to what the resolver answers.
use aoni.Base.{ℕ, ◌*◌, ◌&&◌, List, [], ◌∷◌, Option, none, some, map, ltb, if◌then◌else◌}
use aoni.Base.Int.{pos_part, is_positive}
use aoni.Base.Text.{Text, bytes}
use aoni.Dns.Error.{DnsError, empty_records, is_not_found, wrap_dns_error}
use aoni.Dns.Cache.{
  second, default_stale_response_ttl, Entry, Config, Answer, ok, err, DnsRecord, Records, records,
  failure, Resolver, Store, store, fresh_answer, recheck_answer, stale_entry, ancestor_answer,
  positive_entry, negative_entry, or_default,
}

abbrev at_least : ℕ → ℕ → ℕ
at_least m n = if ltb n m then m else n

-- The three clock readings of a lookup: of its start, in flight, and when records are stored.
pub record Clock : Type 0 where
  pub now : ℕ
  pub current_now : ℕ
  pub stored_at : ℕ

abbrev pub mark_failure : ℕ → Text → Entry → Store → Answer × Store
mark_failure now host entry cache =
    (ok entry.ips, store host (record entry { last_failure = some now }) cache)

abbrev pub fall_back : ℕ → Text → Option Entry → DnsError → Store → Answer × Store
fall_back now host none e cache = (err e, cache)
fall_back now host (some entry) e cache = mark_failure now host entry cache

-- What the answer of the resolver becomes; stale is the entry that may be served.
unfoldable pub settle : Config → ℕ → Text → Option Entry → Answer → Store → Answer × Store
settle c now host stale (ok ips) cache =
    let ttl = or_default c.ttl default_stale_response_ttl in
    (ok ips, store host (positive_entry c ips now ttl) cache)
settle c now host stale (err e) cache =
    if c.negative_caching && is_not_found e
    then (err e, store host (negative_entry c e now) cache)
    else fall_back now host stale e cache

-- The limit of the lookup's time, which only one with a stale answer has.
abbrev pub limit_of : Config → Option Entry → Option ℕ
limit_of c none = none
limit_of c (some entry) =
    if is_positive c.client_response_timeout
    then some (pos_part c.client_response_timeout)
    else none

abbrev pub ask_records : Option (Option ℕ → Text → Records) → Option ℕ → Text → Option Records
ask_records none limit host = none
ask_records (some ask) limit host = some (ask limit host)

abbrev pub wrap_answer : Text → Answer × Store → Answer × Store
wrap_answer host (ok ips, cache) = (ok ips, cache)
wrap_answer host (err e, cache) = (err (wrap_dns_error host (bytes "InMemoryCache") [] e), cache)

-- wire.SelectRRSetTTL, as a duration.
module _ (select_rrset_ttl : List ℕ → ℕ) where
  unfoldable pub store_records : Config → ℕ → Text → List DnsRecord → Store → Answer × Store
  store_records c now host [] cache = (err empty_records, cache)
  store_records c now host (r ∷ rs) cache =
      let ips = map (λ x. x.addr) (r ∷ rs) in
      let ttl = at_least (5 * second) (select_rrset_ttl (map (λ x. x.ttl) (r ∷ rs))) in
      (ok ips, store host (positive_entry c ips now ttl) cache)

  -- The call for records, which may leave the matter to the call for addresses.
  abbrev pub settle_records :
      Config → Clock → Text → Option Entry → Option Records → Answer → Store → Answer × Store
  settle_records c t host stale none a cache = settle c t.current_now host stale a cache
  settle_records c t host stale (some (records [])) a cache =
      settle c t.current_now host stale a cache
  settle_records c t host stale (some (records (r ∷ rs))) a cache =
      store_records c t.stored_at host (r ∷ rs) cache
  settle_records c t host (some entry) (some (failure e)) a cache =
      mark_failure t.current_now host entry cache
  settle_records c t host none (some (failure e)) a cache = settle c t.current_now host none a cache

  -- The lookup upstream.
  unfoldable pub resolve : Config → Resolver → Clock → Text → Store → Answer × Store
  resolve c r t host cache =
      let stale = stale_entry c t.current_now (cache host) in
      let limit = limit_of c stale in
      settle_records c t host stale (ask_records r.lookup_dns_records limit host)
        (r.lookup_ip_addr limit host) cache

  -- The function that is in flight.
  unfoldable pub flight : Config → Resolver → Clock → Text → Store → Answer × Store
  flight c r t host cache = elim (fresh_answer t.current_now (cache host)) [
    | some a ↦ (a, cache)
    | none ↦ elim (ancestor_answer c cache t.current_now host) [
      | some e ↦ (err e, cache)
      | none ↦ resolve c r t host cache
    ]
  ]

  unfoldable pub lookup_ip_addr : Config → Resolver → Clock → Text → Store → Answer × Store
  lookup_ip_addr c r t host cache = elim (fresh_answer t.now (cache host)) [
    | some a ↦ (a, cache)
    | none ↦ elim (recheck_answer c t.now (cache host)) [
      | some a ↦ (a, cache)
      | none ↦ elim (ancestor_answer c cache t.now host) [
        | some e ↦ (err e, cache)
        | none ↦ wrap_answer host (flight c r t host cache)
      ]
    ]
  ]
