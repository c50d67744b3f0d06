-- ===== src/Dns/Tests.antt =====
-- dns: runs of the cache and of the resolvers, and the theorems at one input.
use aoni.Base.{ℕ, ◌*◌, ◌≡◌, refl, inl, true, false, List, [], ◌∷◌, ◌++◌, none, some, arith}
use aoni.Base.Int.{pos, negsuc}
use aoni.Base.Text.{Text, bytes}
use aoni.Dns.Error.{DnsError, nxdomain, other, is_nxdomain, is_not_found, wrap_dns_error}
use aoni.Dns.Cache.{
  second, Config, Answer, ok, err, failure, Resolver, Store, store, new_in_memory_dns_cache,
  with_max_stale_ttl, purge_expired, positive_entry, check_ancestor_nxdomain, fresh_answer,
  recheck_answer, cut,
}
use aoni.Dns.Cache.Lookup.{Clock, lookup_ip_addr, flight, resolve, settle}
use aoni.Dns.Cache.Negative.{lookup_ip_addr-cuts_off}
use aoni.Dns.Cache.Stale.{IsDown, IsServable, lookup_ip_addr-IsServable}
use aoni.Dns.Cache.WellFormed.{IsWellFormed, lookup_ip_addr-IsWellFormed}
use aoni.Dns.Resolvers.{Question, validate_query_match}
use aoni.Dns.Cache.{Address}
use aoni.Dns.StaleFirst.{
  StaleOptions, StaleEntry, StaleResolver, Upstream, end_refresh, stale_lookup_ip_addr,
}

abbrev lowest : List ℕ → ℕ
lowest ttls = 60 * second

abbrev cfg : Config
cfg = new_in_memory_dns_cache (pos (60 * second)) []

abbrev hasty : Config
hasty = new_in_memory_dns_cache (pos (60 * second)) (with_max_stale_ttl (negsuc (60 * second)) ∷ [])

abbrev host : Text
host = bytes "a.b"

abbrev local : List Text
local = (127 ∷ 0 ∷ 0 ∷ 1 ∷ []) ∷ []

abbrev nothing : Store
nothing h = none

abbrev at : ℕ → Clock
at n = record { now = n; current_now = n; stored_at = n }

abbrev working : Resolver
working = record { lookup_ip_addr = λ limit h. ok local; lookup_dns_records = none }

abbrev denying : Resolver
denying = record { lookup_ip_addr = λ limit h. err nxdomain; lookup_dns_records = none }

abbrev broken : Resolver
broken = record { lookup_ip_addr = λ limit h. err (other 1 false); lookup_dns_records = none }

-- A resolver that gives records, and says that the name does not exist.
abbrev denying_records : Resolver
denying_records = record {
  lookup_ip_addr = λ limit h. err nxdomain;
  lookup_dns_records = some (λ limit h. failure nxdomain);
}

abbrev remembered : Store
remembered = store host (positive_entry cfg local 0 (60 * second)) nothing

-- A stale entry is served over the answer that the name does not exist.
denied_but_served :
    (lookup_ip_addr lowest cfg denying_records (at (90 * second)) host remembered).0 ≡ ok local
unfolding lookup_ip_addr flight resolve settle fresh_answer recheck_answer check_ancestor_nxdomain
    cut
denied_but_served = refl

-- With a negative retention, a fresh entry is thrown away.
dropped_fresh :
    (fresh_answer 0 (store host (positive_entry hasty local 0 (60 * second)) nothing host)
      ≡ some (ok local))
    × (purge_expired 1 (store host (positive_entry hasty local 0 (60 * second)) nothing) host
        ≡ none)
unfolding fresh_answer purge_expired
dropped_fresh = (refl, refl)

abbrev first : Answer × Store
first = lookup_ip_addr lowest cfg working (at 0) host nothing

abbrev denied : Answer × Store
denied = lookup_ip_addr lowest cfg denying (at 0) host nothing

lookup_ip_addr-cuts_off_example :
    (denied.0 ≡ err (wrap_dns_error host (bytes "InMemoryCache") [] nxdomain))
    × ((e : DnsError) × ((lookup_ip_addr lowest cfg working
              (at second)
              (bytes "www" ++ (b'.' ∷ host))
              denied.1
            ≡ (err e, denied.1))
          × (is_nxdomain e ≡ true)))
unfolding check_ancestor_nxdomain cut is_nxdomain
lookup_ip_addr-cuts_off_example =
    lookup_ip_addr-cuts_off lowest cfg denying working (at 0) (at second) (bytes "www") host
      nxdomain nothing refl refl refl refl refl refl refl refl refl (omega arith)

lookup_ip_addr-IsWellFormed_example :
    IsWellFormed (lookup_ip_addr lowest cfg working (at 0) host nothing).1
lookup_ip_addr-IsWellFormed_example =
    lookup_ip_addr-IsWellFormed lowest cfg working (at 0) host nothing refl (λ h. tt)

broken-IsDown : IsDown broken
broken-IsDown = record {
  addresses = λ limit h. (other 1 false, refl);
  no_records = λ limit h. inl refl;
}

remembered-IsWellFormed : IsWellFormed (lookup_ip_addr lowest cfg working (at 0) host nothing).1
remembered-IsWellFormed =
    lookup_ip_addr-IsWellFormed lowest cfg working (at 0) host nothing refl (λ h. tt)

lookup_ip_addr-IsServable_example : IsServable (90 * second) (first.1 host) local
unfolding lookup_ip_addr flight resolve settle fresh_answer recheck_answer check_ancestor_nxdomain
    cut is_not_found
lookup_ip_addr-IsServable_example =
    lookup_ip_addr-IsServable lowest cfg broken (at (90 * second)) host first.1 local broken-IsDown
      remembered-IsWellFormed (omega arith) refl

abbrev asked : Question
asked = record { id = 7; qname = bytes "A.b"; qtype = 1; qclass = 1 }

abbrev answered : Question
answered = record { id = 7; qname = bytes "a.b."; qtype = 1; qclass = 1 }

accepted : validate_query_match asked answered ≡ none
unfolding validate_query_match
accepted = refl

abbrev stale_options : StaleOptions
stale_options = record { max_expired_time = 100; stale_delay = 0; default_ttl = 10 }

abbrev expired : StaleEntry
expired = record { addrs = local; expires_at = 5; fetched_at = 0 }

abbrev resolver : StaleResolver
resolver = record { cache = λ h. some expired; inflight = λ h. false }

abbrev failing : Upstream
failing = record { parse_ip = λ h. none; delegate = λ limit h. err nxdomain }

abbrev moved : Address
moved = 10 ∷ 0 ∷ 0 ∷ 1 ∷ []

abbrev served : Answer × StaleResolver
served = stale_lookup_ip_addr stale_options failing 8 8 host resolver

abbrev refreshed : StaleResolver
refreshed = end_refresh stale_options 9 host (ok (moved ∷ [])) served.1

-- An answer that comes within the delay is not stored.
answer_in_time :
    (stale_lookup_ip_addr
      (record stale_options { stale_delay = 1 })
      (record { parse_ip = λ h. none; delegate = λ limit h. ok (moved ∷ []) })
      8
      8
      host
      resolver)
    ≡ (ok (moved ∷ []), resolver)
unfolding stale_lookup_ip_addr
answer_in_time = refl
