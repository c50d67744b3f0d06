-- ===== src/Dns/Cache/Fresh.antt =====
-- dns/cache.go: an answer that is cached is given again while it is fresh.
use aoni.Base.{ℕ, ◌+◌, ◌<◌, ◌≡◌, refl, ap, ◌∙◌, List, none, some, arith}
use aoni.Base.Text.{Text, text_eq_refl}
use aoni.Dns.Error.{DnsError}
use aoni.Dns.Cache.{
  Address, Entry, Config, Answer, ok, err, Resolver, Store, store, fresh_answer,
  default_stale_response_ttl, positive_entry, recheck_answer, ancestor_answer, or_default,
}
use aoni.Dns.Cache.Lookup.{
  Clock, settle, ask_records, settle_records, resolve, flight, wrap_answer, lookup_ip_addr,
}

-- The time for which an answer of the resolver is kept.
abbrev pub ttl_of : Config → ℕ
ttl_of c = or_default c.ttl default_stale_response_ttl

store-same :
    (host : Text) (entry : Entry) (cache : Store) → store host entry cache host ≡ some entry
store-same host entry cache = rw (text_eq_refl host) refl

pub fresh_answer-store :
    (c : Config) (now at ttl : ℕ) (host : Text) (ips : List Address) (cache : Store)
    → now < at + ttl
    → fresh_answer now (store host (positive_entry c ips at ttl) cache host) ≡ some (ok ips)
unfolding fresh_answer
fresh_answer-store c now at ttl host ips cache early =
    rw (store-same host (positive_entry c ips at ttl) cache) (ground arith)

fresh_answer-unknown :
    (now : ℕ) (host : Text) (cache : Store)
    → cache host ≡ none
    → fresh_answer now (cache host) ≡ none
unfolding fresh_answer
fresh_answer-unknown now host cache h = rw h refl

recheck_answer-unknown :
    (c : Config) (now : ℕ) (host : Text) (cache : Store)
    → cache host ≡ none
    → recheck_answer c now (cache host) ≡ none
unfolding recheck_answer
recheck_answer-unknown c now host cache h = rw h refl

module _ (select_rrset_ttl : List ℕ → ℕ) where
  -- A fresh entry answers without the resolver.
  pub lookup_ip_addr-fresh :
      (c : Config) (r : Resolver) (t : Clock) (host : Text) (cache : Store) (a : Answer)
      → fresh_answer t.now (cache host) ≡ some a
      → lookup_ip_addr select_rrset_ttl c r t host cache ≡ (a, cache)
  unfolding lookup_ip_addr
  lookup_ip_addr-fresh c r t host cache a h = rw (lookup_ip_addr, h) refl

  pub lookup_ip_addr-ancestor :
      (c : Config) (r : Resolver) (t : Clock) (host : Text) (cache : Store) (e : DnsError)
      → cache host ≡ none
      → ancestor_answer c cache t.now host ≡ some e
      → lookup_ip_addr select_rrset_ttl c r t host cache ≡ (err e, cache)
  unfolding lookup_ip_addr
  lookup_ip_addr-ancestor c r t host cache e h an =
      rw
        (
          lookup_ip_addr,
          fresh_answer-unknown t.now host cache h,
          recheck_answer-unknown c t.now host cache h,
          an,
        )
        refl

  -- An answer that is not cached.
  pub lookup_ip_addr-resolve :
      (c : Config) (r : Resolver) (t : Clock) (host : Text) (cache : Store)
      → fresh_answer t.now (cache host) ≡ none
      → recheck_answer c t.now (cache host) ≡ none
      → ancestor_answer c cache t.now host ≡ none
      → fresh_answer t.current_now (cache host) ≡ none
      → ancestor_answer c cache t.current_now host ≡ none
      → lookup_ip_addr select_rrset_ttl c r t host cache
        ≡ wrap_answer host (resolve select_rrset_ttl c r t host cache)
  unfolding lookup_ip_addr flight
  lookup_ip_addr-resolve c r t host cache f rc an f' an' =
      rw (lookup_ip_addr, f, rc, an, flight, f', an') refl

  pub lookup_ip_addr-unknown :
      (c : Config) (r : Resolver) (t : Clock) (host : Text) (cache : Store)
      → cache host ≡ none
      → ancestor_answer c cache t.now host ≡ none
      → ancestor_answer c cache t.current_now host ≡ none
      → lookup_ip_addr select_rrset_ttl c r t host cache
        ≡ wrap_answer host (
            settle_records select_rrset_ttl c t host none
              (ask_records r.lookup_dns_records none host)
              (r.lookup_ip_addr none host)
              cache)
  unfolding resolve
  lookup_ip_addr-unknown c r t host cache h an an' =
      lookup_ip_addr-resolve c r t host cache (fresh_answer-unknown t.now host cache h)
        (recheck_answer-unknown c t.now host cache h) an
        (fresh_answer-unknown t.current_now host cache h) an'
      ∙ ap (wrap_answer host) (rw (resolve, h) refl)

  lookup_ip_addr-answered :
      (c : Config) (r : Resolver) (t : Clock) (host : Text) (ips : List Address) (cache : Store)
      → cache host ≡ none
      → ancestor_answer c cache t.now host ≡ none
      → ancestor_answer c cache t.current_now host ≡ none
      → r.lookup_dns_records ≡ none
      → r.lookup_ip_addr none host ≡ ok ips
      → lookup_ip_addr select_rrset_ttl c r t host cache
        ≡ (ok ips, store host (positive_entry c ips t.current_now (ttl_of c)) cache)
  unfolding settle
  lookup_ip_addr-answered c r t host ips cache h an an' plain e =
      lookup_ip_addr-unknown c r t host cache h an an' ∙ rw (plain, e) refl

  -- A host that is not in the cache, and that no name above it cuts off, is looked up by the resolver,
  -- which gives addresses only; the addresses it answers with are then the answer of every lookup of
  -- that host that starts within the time to live after it, whatever the resolver would say by then,
  -- and these lookups do not change the cache.
  pub lookup_ip_addr-remembers :
      (c : Config) (r r' : Resolver) (t t' : Clock) (host : Text) (ips : List Address)
      (cache : Store)
      → cache host ≡ none
      → ancestor_answer c cache t.now host ≡ none
      → ancestor_answer c cache t.current_now host ≡ none
      → r.lookup_dns_records ≡ none
      → r.lookup_ip_addr none host ≡ ok ips
      → t'.now < t.current_now + ttl_of c
      → let first = lookup_ip_addr select_rrset_ttl c r t host cache in
        (first.0 ≡ ok ips)
        × (lookup_ip_addr select_rrset_ttl c r' t' host first.1 ≡ (ok ips, first.1))
  lookup_ip_addr-remembers c r r' t t' host ips cache h an an' plain e early =
      rw (lookup_ip_addr-answered c r t host ips cache h an an' plain e) (
        refl,
        lookup_ip_addr-fresh c r' t' host
            (store host (positive_entry c ips t.current_now (ttl_of c)) cache) (ok ips)
            (fresh_answer-store c t'.now t.current_now (ttl_of c) host ips cache early),
      )
