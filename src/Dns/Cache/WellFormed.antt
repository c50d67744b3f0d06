-- ===== src/Dns/Cache/WellFormed.antt =====
-- dns/cache.go: what holds of every entry of the cache.
use aoni.Base.{
  ℕ, ◌+◌, ◌≤◌, false, ◌≡◌, refl, inl, inr, true, List, [], ◌∷◌, Option, none, some, arith, ltb,
  ◌&&◌, Bool-cases, Option-cases, and_parts,
}
use aoni.Base.Int.{ℤ, pos, negsuc, is_negative}
use aoni.Base.Text.{Text, text_eq}
use aoni.Dns.Error.{DnsError, is_not_found}
use aoni.Dns.Cache.{
  Address, Entry, Config, Answer, ok, err, Records, records, failure, Resolver, Store, store,
  fresh_answer, positive_entry, negative_entry, add_duration, stale_entry, recheck_answer,
  ancestor_answer, purge_expired, is_usable, keep_unexpired,
}
use aoni.Dns.Cache.Lookup.{
  Clock, store_records, mark_failure, settle, settle_records, resolve, flight, wrap_answer,
  lookup_ip_addr,
}

-- An entry is kept as long as it is fresh, and a negative one keeps the error that says
-- the name or its data do not exist.
pub record IsSound (entry : Entry) : Type 0 where
  pub ordered : entry.fresh_until ≤ entry.stale_until
  pub denied :
      entry.is_negative ≡ true
      → (e : DnsError) × ((entry.neg_err ≡ some e) × (is_not_found e ≡ true))

abbrev pub HoldsSound : Option Entry → Type 0
HoldsSound none = Unit
HoldsSound (some entry) = IsSound entry

abbrev pub IsWellFormed : Store → Type 0
IsWellFormed cache = (host : Text) → HoldsSound (cache host)

store-IsWellFormed :
    (host : Text) (entry : Entry) (cache : Store)
    → IsSound entry
    → IsWellFormed cache
    → IsWellFormed (store host entry cache)
store-IsWellFormed host entry cache sound wf h = elim (Bool-cases (text_eq h host)) [
  | inl e ↦ rw e sound
  | inr e ↦ rw e (wf h)
]

later : (t : ℕ) (d : ℤ) → is_negative d ≡ false → t ≤ add_duration t d
later t (pos n) h = omega arith
later t (negsuc n) h = absurd (cc h)

positive_entry-IsSound :
    (c : Config) (ips : List Address) (now ttl : ℕ)
    → is_negative c.max_stale_ttl ≡ false
    → IsSound (positive_entry c ips now ttl)
positive_entry-IsSound c ips now ttl kept = record {
  ordered = later (now + ttl) c.max_stale_ttl kept;
  denied = λ h. cc;
}

negative_entry-IsSound :
    (c : Config) (e : DnsError) (now : ℕ) → is_not_found e ≡ true → IsSound (negative_entry c e now)
negative_entry-IsSound c e now h = record { ordered = omega arith; denied = λ n. (e, (refl, h)) }

keep_unexpired-HoldsSound :
    (now : ℕ) (o : Option Entry) → HoldsSound o → HoldsSound (keep_unexpired now o)
keep_unexpired-HoldsSound now none h = tt
keep_unexpired-HoldsSound now (some entry) h = elim (Bool-cases (ltb entry.stale_until now)) [
  | inl e ↦ rw (keep_unexpired, e) tt
  | inr e ↦ rw (keep_unexpired, e) h
]

pub purge_expired-IsWellFormed :
    (now : ℕ) (cache : Store) → IsWellFormed cache → IsWellFormed (purge_expired now cache)
unfolding purge_expired
purge_expired-IsWellFormed now cache wf host = keep_unexpired-HoldsSound now (cache host) (wf host)

stale_entry-HoldsSound :
    (c : Config) (now : ℕ) (o : Option Entry) → HoldsSound o → HoldsSound (stale_entry c now o)
stale_entry-HoldsSound c now none h = tt
stale_entry-HoldsSound c now (some entry) h = elim (Bool-cases (is_usable c now entry)) [
  | inl e ↦ rw (stale_entry, e) h
  | inr e ↦ rw (stale_entry, e) tt
]

mark_failure-IsWellFormed :
    (now : ℕ) (host : Text) (entry : Entry) (cache : Store)
    → IsSound entry
    → IsWellFormed cache
    → IsWellFormed (mark_failure now host entry cache).1
mark_failure-IsWellFormed now host entry cache sound wf =
    store-IsWellFormed host (record entry { last_failure = some now }) cache
      (record { ordered = sound.ordered; denied = sound.denied }) wf

settle-IsWellFormed :
    (c : Config) (now : ℕ) (host : Text) (stale : Option Entry) (a : Answer) (cache : Store)
    → is_negative c.max_stale_ttl ≡ false
    → HoldsSound stale
    → IsWellFormed cache
    → IsWellFormed (settle c now host stale a cache).1
unfolding settle
settle-IsWellFormed c now host stale (ok ips) cache kept h wf =
    store-IsWellFormed host _ cache (positive_entry-IsSound c ips now _ kept) wf
settle-IsWellFormed c now host none (err e) cache kept h wf =
    elim (Bool-cases (c.negative_caching && is_not_found e)) [
      | inl k ↦ rw k (
          store-IsWellFormed host _ cache
            (negative_entry-IsSound c e now (and_parts c.negative_caching (is_not_found e) k).1) wf)
      | inr k ↦ rw k wf
    ]
settle-IsWellFormed c now host (some entry) (err e) cache kept h wf =
    elim (Bool-cases (c.negative_caching && is_not_found e)) [
      | inl k ↦ rw k (
          store-IsWellFormed host _ cache
            (negative_entry-IsSound c e now (and_parts c.negative_caching (is_not_found e) k).1) wf)
      | inr k ↦ rw k (mark_failure-IsWellFormed now host entry cache h wf)
    ]

wrap_answer-cache : (host : Text) (r : Answer × Store) → (wrap_answer host r).1 ≡ r.1
wrap_answer-cache host (ok ips, cache) = refl
wrap_answer-cache host (err e, cache) = refl

module _ (select_rrset_ttl : List ℕ → ℕ) where
  settle_records-IsWellFormed :
      (c : Config) (t : Clock) (host : Text) (stale : Option Entry) (o : Option Records)
      (a : Answer) (cache : Store)
      → is_negative c.max_stale_ttl ≡ false
      → HoldsSound stale
      → IsWellFormed cache
      → IsWellFormed (settle_records select_rrset_ttl c t host stale o a cache).1
  unfolding store_records
  settle_records-IsWellFormed c t host stale none a cache kept h wf =
      settle-IsWellFormed c t.current_now host stale a cache kept h wf
  settle_records-IsWellFormed c t host stale (some (records [])) a cache kept h wf =
      settle-IsWellFormed c t.current_now host stale a cache kept h wf
  settle_records-IsWellFormed c t host stale (some (records (r ∷ rs))) a cache kept h wf =
      store-IsWellFormed host _ cache (positive_entry-IsSound c _ t.stored_at _ kept) wf
  settle_records-IsWellFormed c t host (some entry) (some (failure e)) a cache kept h wf =
      mark_failure-IsWellFormed t.current_now host entry cache h wf
  settle_records-IsWellFormed c t host none (some (failure e)) a cache kept h wf =
      settle-IsWellFormed c t.current_now host none a cache kept h wf

  resolve-IsWellFormed :
      (c : Config) (r : Resolver) (t : Clock) (host : Text) (cache : Store)
      → is_negative c.max_stale_ttl ≡ false
      → IsWellFormed cache
      → IsWellFormed (resolve select_rrset_ttl c r t host cache).1
  unfolding resolve
  resolve-IsWellFormed c r t host cache kept wf =
      settle_records-IsWellFormed c t host (stale_entry c t.current_now (cache host)) _ _ cache kept
        (stale_entry-HoldsSound c t.current_now (cache host) (wf host)) wf

  flight-IsWellFormed :
      (c : Config) (r : Resolver) (t : Clock) (host : Text) (cache : Store)
      → is_negative c.max_stale_ttl ≡ false
      → IsWellFormed cache
      → IsWellFormed (flight select_rrset_ttl c r t host cache).1
  unfolding flight
  flight-IsWellFormed c r t host cache kept wf =
      elim (Option-cases (fresh_answer t.current_now (cache host))) [
        | inr (a, e) ↦ rw (flight, e) wf
        | inl n ↦ elim (Option-cases (ancestor_answer c cache t.current_now host)) [
          | inr (a, e) ↦ rw (flight, n, e) wf
          | inl m ↦ rw (flight, n, m) (resolve-IsWellFormed c r t host cache kept wf)
        ]
      ]

  -- When the maximal stale time to live is not negative, every lookup leaves a cache in which no entry
  -- ceases to be kept before it ceases to be fresh, and every negative entry holds the error of a
  -- name, or of data, that does not exist, if it starts from such a cache.
  pub lookup_ip_addr-IsWellFormed :
      (c : Config) (r : Resolver) (t : Clock) (host : Text) (cache : Store)
      → is_negative c.max_stale_ttl ≡ false
      → IsWellFormed cache
      → IsWellFormed (lookup_ip_addr select_rrset_ttl c r t host cache).1
  unfolding lookup_ip_addr
  lookup_ip_addr-IsWellFormed c r t host cache kept wf =
      elim (Option-cases (fresh_answer t.now (cache host))) [
        | inr (a, e) ↦ rw (lookup_ip_addr, e) wf
        | inl n ↦ elim (Option-cases (recheck_answer c t.now (cache host))) [
          | inr (a, e) ↦ rw (lookup_ip_addr, n, e) wf
          | inl m ↦ elim (Option-cases (ancestor_answer c cache t.now host)) [
            | inr (a, e) ↦ rw (lookup_ip_addr, n, m, e) wf
            | inl k ↦
                rw
                  (
                    lookup_ip_addr,
                    n,
                    m,
                    k,
                    wrap_answer-cache host (flight select_rrset_ttl c r t host cache),
                  )
                  (flight-IsWellFormed c r t host cache kept wf)
          ]
        ]
      ]
