-- ===== src/Dns/Cache/Stale.antt =====
-- dns/cache.go: what is answered when the resolver is down.
use mathlib.Core.Path.{subst}
use aoni.Base.{
  ℕ, ◌≤◌, ◌<◌, ◌≡◌, refl, inl, inr, ◌⊎◌, true, false, List, Option, none, some, arith, ltb, ◌&&◌,
  Bool-cases, Option-cases, and_parts, ltb→lt,
}
use aoni.Base.Text.{Text}
use aoni.Dns.Error.{DnsError, is_not_found}
use aoni.Dns.Cache.{
  Address, Entry, Config, Answer, ok, err, Records, failure, Resolver, Store, fresh_answer,
  stale_entry, recheck_answer, ancestor_answer, is_usable, failed_lately,
}
use aoni.Dns.Cache.Lookup.{
  Clock, settle, settle_records, limit_of, ask_records, resolve, flight, wrap_answer,
  lookup_ip_addr,
}
use aoni.Dns.Cache.WellFormed.{HoldsSound, IsWellFormed}

-- A resolver that answers nothing.
pub record IsDown (r : Resolver) : Type 0 where
  pub addresses :
      (limit : Option ℕ) (host : Text) → (e : DnsError) × (r.lookup_ip_addr limit host ≡ err e)
  pub no_records :
      (limit : Option ℕ) (host : Text)
      → (ask_records r.lookup_dns_records limit host ≡ none)
        ⊎ ((e : DnsError) × (ask_records r.lookup_dns_records limit host ≡ some (failure e)))

-- The addresses are those of a positive entry that may still be served.
pub record IsServable (now : ℕ) (o : Option Entry) (ips : List Address) : Type 0 where
  pub entry : Entry
  pub found : o ≡ some entry
  pub positive : entry.is_negative ≡ false
  pub addresses : entry.ips ≡ ips
  pub in_time : now < entry.stale_until

fresh_answer-IsServable :
    (now : ℕ) (o : Option Entry) (ips : List Address)
    → HoldsSound o
    → fresh_answer now o ≡ some (ok ips)
    → IsServable now o ips
unfolding fresh_answer
fresh_answer-IsServable now none ips sound h = cc
fresh_answer-IsServable now (some entry) ips sound h = elim (Bool-cases entry.is_negative) [
  | inl neg ↦ let (e, (k, nf)) = sound.denied neg in ground arith
  | inr pos ↦ elim (Bool-cases (ltb now entry.fresh_until)) [
    | inl fresh ↦ record {
      entry = entry;
      found = refl;
      positive = pos;
      addresses = ground arith;
      in_time = omega (arith, sound.ordered, ltb→lt now entry.fresh_until fresh);
    }
    | inr late ↦ ground arith
  ]
]

usable_entry :
    (c : Config) (now : ℕ) (entry : Entry)
    → is_usable c now entry ≡ true
    → (entry.is_negative ≡ false) × (now < entry.stale_until)
usable_entry c now entry h = (ground arith, ground arith)

recheck_answer-IsServable :
    (c : Config) (now : ℕ) (o : Option Entry) (ips : List Address)
    → recheck_answer c now o ≡ some (ok ips)
    → IsServable now o ips
unfolding recheck_answer
recheck_answer-IsServable c now none ips h = cc
recheck_answer-IsServable c now (some entry) ips h =
    elim (Bool-cases (is_usable c now entry && failed_lately now entry.last_failure)) [
      | inr idle ↦ ground arith
      | inl good ↦
          let usable =
            and_parts (is_usable c now entry) (failed_lately now entry.last_failure) good in
          let (pos, in_time) = usable_entry c now entry usable.0 in
          record {
            entry = entry;
            found = refl;
            positive = pos;
            addresses = ground arith;
            in_time = in_time;
          }
    ]

stale_entry-IsServable :
    (c : Config) (now : ℕ) (o : Option Entry) (entry : Entry)
    → stale_entry c now o ≡ some entry
    → IsServable now o entry.ips
stale_entry-IsServable c now none entry h = cc
stale_entry-IsServable c now (some kept) entry h = elim (Bool-cases (is_usable c now kept)) [
  | inr idle ↦ ground arith
  | inl good ↦
      let (pos, in_time) = usable_entry c now kept good in
      record {
        entry = kept;
        found = refl;
        positive = pos;
        addresses = ground arith;
        in_time = in_time;
      }
]

-- What an answer is servable from, if it is one.
abbrev Serves : ℕ → Option Entry → Answer → Type 0
Serves now o (ok ips) = IsServable now o ips
Serves now o (err e) = Unit

-- A later time is none the better.
earlier :
    (now later : ℕ) (o : Option Entry) (a : Answer)
    → now ≤ later
    → Serves later o a
    → Serves now o a
earlier now later o (err e) le s = tt
earlier now later o (ok ips) le s = record {
  entry = s.entry;
  found = s.found;
  positive = s.positive;
  addresses = s.addresses;
  in_time = omega (arith, s.in_time);
}

settle-Serves :
    (c : Config) (now : ℕ) (host : Text) (o : Option Entry) (stale : Option Entry) (e : DnsError)
    (cache : Store)
    → stale_entry c now o ≡ stale
    → Serves now o (settle c now host stale (err e) cache).0
unfolding settle
settle-Serves c now host o none e cache k =
    elim (Bool-cases (c.negative_caching && is_not_found e)) [ inl x ↦ rw x tt | inr x ↦ rw x tt ]
settle-Serves c now host o (some entry) e cache k =
    elim (Bool-cases (c.negative_caching && is_not_found e)) [
      | inl x ↦ rw x tt
      | inr x ↦ rw x (stale_entry-IsServable c now o entry k)
    ]

wrap_answer-Serves :
    (now : ℕ) (o : Option Entry) (host : Text) (a : Answer) (cache : Store)
    → Serves now o a
    → Serves now o (wrap_answer host (a, cache)).0
wrap_answer-Serves now o host (ok ips) cache s = s
wrap_answer-Serves now o host (err e) cache s = tt

fresh_answer-Serves :
    (now : ℕ) (o : Option Entry) (a : Answer)
    → HoldsSound o
    → fresh_answer now o ≡ some a
    → Serves now o a
fresh_answer-Serves now o (ok ips) sound h = fresh_answer-IsServable now o ips sound h
fresh_answer-Serves now o (err e) sound h = tt

recheck_answer-Serves :
    (c : Config) (now : ℕ) (o : Option Entry) (a : Answer)
    → recheck_answer c now o ≡ some a
    → Serves now o a
recheck_answer-Serves c now o (ok ips) h = recheck_answer-IsServable c now o ips h
recheck_answer-Serves c now o (err e) h = tt

module _ (select_rrset_ttl : List ℕ → ℕ) where
  settle_records-Serves :
      (c : Config) (t : Clock) (host : Text) (o stale : Option Entry) (e : DnsError) (cache : Store)
      (asked : Option Records)
      → stale_entry c t.current_now o ≡ stale
      → (asked ≡ none) ⊎ ((x : DnsError) × (asked ≡ some (failure x)))
      → Serves t.current_now o
          (settle_records select_rrset_ttl c t host stale asked (err e) cache).0
  settle_records-Serves c t host o stale e cache asked k (inl n) =
      rw n (settle-Serves c t.current_now host o stale e cache k)
  settle_records-Serves c t host o none e cache asked k (inr (x, n)) =
      rw n (settle-Serves c t.current_now host o none e cache k)
  settle_records-Serves c t host o (some entry) e cache asked k (inr (x, n)) =
      rw n (stale_entry-IsServable c t.current_now o entry k)

  resolve-Serves :
      (c : Config) (r : Resolver) (t : Clock) (host : Text) (cache : Store)
      → IsDown r
      → Serves t.current_now (cache host) (resolve select_rrset_ttl c r t host cache).0
  unfolding resolve
  resolve-Serves c r t host cache down =
      let stale = stale_entry c t.current_now (cache host) in
      let (e, answer) = down.addresses (limit_of c stale) host in
      rw answer (
        settle_records-Serves c t host (cache host) stale e cache
          (ask_records r.lookup_dns_records (limit_of c stale) host) refl
          (down.no_records (limit_of c stale) host))

  flight-Serves :
      (c : Config) (r : Resolver) (t : Clock) (host : Text) (cache : Store)
      → IsDown r
      → IsWellFormed cache
      → Serves t.current_now (cache host) (flight select_rrset_ttl c r t host cache).0
  unfolding flight
  flight-Serves c r t host cache down wf =
      elim (Option-cases (fresh_answer t.current_now (cache host))) [
        | inr (a, e) ↦ rw (flight, e) (fresh_answer-Serves t.current_now (cache host) a (wf host) e)
        | inl n ↦ elim (Option-cases (ancestor_answer c cache t.current_now host)) [
          | inr (a, e) ↦ rw (flight, n, e) tt
          | inl m ↦ rw (flight, n, m) (resolve-Serves c r t host cache down)
        ]
      ]

  lookup_ip_addr-Serves :
      (c : Config) (r : Resolver) (t : Clock) (host : Text) (cache : Store)
      → IsDown r
      → IsWellFormed cache
      → t.now ≤ t.current_now
      → Serves t.now (cache host) (lookup_ip_addr select_rrset_ttl c r t host cache).0
  unfolding lookup_ip_addr
  lookup_ip_addr-Serves c r t host cache down wf le =
      elim (Option-cases (fresh_answer t.now (cache host))) [
        | inr (a, e) ↦ rw (lookup_ip_addr, e) (fresh_answer-Serves t.now (cache host) a (wf host) e)
        | inl n ↦ elim (Option-cases (recheck_answer c t.now (cache host))) [
          | inr (a, e) ↦ rw (lookup_ip_addr, n, e) (recheck_answer-Serves c t.now (cache host) a e)
          | inl m ↦ elim (Option-cases (ancestor_answer c cache t.now host)) [
            | inr (a, e) ↦ rw (lookup_ip_addr, n, m, e) tt
            | inl k ↦
                let found = flight select_rrset_ttl c r t host cache in
                rw (lookup_ip_addr, n, m, k)
                  (wrap_answer-Serves t.now (cache host) host found.0 found.1 (
                    earlier t.now t.current_now (cache host) found.0 le
                      (flight-Serves c r t host cache down wf)))
          ]
        ]
      ]

  -- When the resolver is down, the addresses that a lookup still answers with are those of the
  -- cache's entry for that host, which is a positive one whose retention has not ended when the lookup
  -- starts. The cache is well formed, and the clock does not go back during the lookup.
  pub lookup_ip_addr-IsServable :
      (c : Config) (r : Resolver) (t : Clock) (host : Text) (cache : Store) (ips : List Address)
      → IsDown r
      → IsWellFormed cache
      → t.now ≤ t.current_now
      → (lookup_ip_addr select_rrset_ttl c r t host cache).0 ≡ ok ips
      → IsServable t.now (cache host) ips
  lookup_ip_addr-IsServable c r t host cache ips down wf le h =
      subst (Serves t.now (cache host)) h (lookup_ip_addr-Serves c r t host cache down wf le)
