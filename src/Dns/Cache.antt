-- ===== src/Dns/Cache.antt =====
-- dns/cache.go: the cache of resolutions, which serves stale answers and negative ones. Times are
-- nanoseconds from the zero time, before which nothing is told apart. A lookup is the one call of its host that is in flight.
pub mod Lookup
pub mod Fresh
pub mod Negative
pub mod Stale
pub mod WellFormed
use aoni.Base.{
  ℕ, zero, suc, ◌+◌, ◌-◌, ◌*◌, ◌==◌, Bool, true, false, not, ◌&&◌, ◌||◌, List, [], ◌∷◌, Option,
  none, some, ltb, if◌then◌else◌,
}
use aoni.Base.Int.{ℤ, pos, negsuc, pos_part, is_positive, leb_ℕ}
use aoni.Base.Text.{Text, bytes, text_eq, is_empty}
use aoni.Dns.Error.{DnsError, is_not_found, is_nxdomain}

abbrev pub second : ℕ
second = 1000000000

abbrev pub max_ttl_cap : ℕ
max_ttl_cap = 7 * 24 * 3600 * second

abbrev pub default_max_stale_ttl : ℕ
default_max_stale_ttl = 3 * 24 * 3600 * second

abbrev pub default_stale_response_ttl : ℕ
default_stale_response_ttl = 30 * second

abbrev pub default_client_response_timeout : ℕ
default_client_response_timeout = 1800 * 1000000

abbrev pub failure_recheck_interval : ℕ
failure_recheck_interval = 30 * second

abbrev pub default_negative_ttl : ℕ
default_negative_ttl = 300 * second

abbrev pub max_negative_ttl_cap : ℕ
max_negative_ttl_cap = 3 * 3600 * second

abbrev pub Address : Type 0
Address = Text

pub record Entry : Type 0 where
  pub ips : List Address
  pub neg_err : Option DnsError
  pub is_negative : Bool
  pub fresh_until : ℕ
  pub stale_until : ℕ
  pub last_failure : Option ℕ

pub record Config : Type 0 where
  pub ttl : ℤ
  pub negative_ttl : ℤ
  pub max_stale_ttl : ℤ
  pub client_response_timeout : ℤ
  pub serve_stale : Bool
  pub negative_caching : Bool

abbrev pub with_serve_stale : Bool → Config → Config
with_serve_stale enabled c = record c { serve_stale = enabled }

abbrev pub with_negative_caching : Bool → Config → Config
with_negative_caching enabled c = record c { negative_caching = enabled }

abbrev capped_at : ℕ → ℤ → ℤ
capped_at cap d = if leb_ℕ d cap then d else pos cap

abbrev pub with_negative_ttl : ℤ → Config → Config
with_negative_ttl d c = record c { negative_ttl = capped_at max_negative_ttl_cap d }

abbrev pub with_max_stale_ttl : ℤ → Config → Config
with_max_stale_ttl d c = record c { max_stale_ttl = capped_at max_ttl_cap d }

abbrev pub with_client_response_timeout : ℤ → Config → Config
with_client_response_timeout d c = record c { client_response_timeout = d }

abbrev apply_options : List (Config → Config) → Config → Config
apply_options [] c = c
apply_options (opt ∷ opts) c = apply_options opts (opt c)

abbrev pub new_in_memory_dns_cache : ℤ → List (Config → Config) → Config
new_in_memory_dns_cache ttl opts = apply_options opts (record {
  ttl = ttl;
  negative_ttl = pos default_negative_ttl;
  max_stale_ttl = pos default_max_stale_ttl;
  client_response_timeout = pos default_client_response_timeout;
  serve_stale = true;
  negative_caching = true;
})

pub data Answer : Type 0 where
  ok : List Address → Answer
  err : DnsError → Answer

pub record DnsRecord : Type 0 where
  pub addr : Address
  pub ttl : ℕ

pub data Records : Type 0 where
  records : List DnsRecord → Records
  failure : DnsError → Records

-- A resolver, whose calls may have a time limit, and which may be able to give records.
pub record Resolver : Type 0 where
  pub lookup_ip_addr : Option ℕ → Text → Answer
  pub lookup_dns_records : Option (Option ℕ → Text → Records)

abbrev pub Store : Type 0
Store = Text → Option Entry

abbrev pub store : Text → Entry → Store → Store
store host entry cache h = if text_eq h host then some entry else cache h

abbrev pub keep_unexpired : ℕ → Option Entry → Option Entry
keep_unexpired now none = none
keep_unexpired now (some entry) = if ltb entry.stale_until now then none else some entry

unfoldable pub purge_expired : ℕ → Store → Store
purge_expired now cache host = keep_unexpired now (cache host)

abbrev pub is_cut : Option DnsError → Bool
is_cut none = false
is_cut (some e) = is_nxdomain e

-- The error of an entry that cuts off the names below it.
unfoldable pub cut : ℕ → Option Entry → Option DnsError
cut now none = none
cut now (some entry) =
    if entry.is_negative && ltb now entry.fresh_until && is_cut entry.neg_err
    then entry.neg_err
    else none

unfoldable pub check_ancestor_nxdomain : Store → ℕ → Text → Option DnsError
check_ancestor_nxdomain cache now [] = none
check_ancestor_nxdomain cache now (c ∷ host) = elim (c == b'.') [
  | false ↦ check_ancestor_nxdomain cache now host
  | true ↦ elim (is_empty host) [
    | true ↦ none
    | false ↦ elim (cut now (cache host)) [
      | some e ↦ some e
      | none ↦ check_ancestor_nxdomain cache now host
    ]
  ]
]

abbrev pub negative_answer : Option DnsError → Answer
negative_answer none = ok []
negative_answer (some e) = err e

unfoldable pub fresh_answer : ℕ → Option Entry → Option Answer
fresh_answer now none = none
fresh_answer now (some entry) =
    if entry.is_negative && ltb now entry.fresh_until
    then some (negative_answer entry.neg_err)
    else if not entry.is_negative && ltb now entry.fresh_until
    then some (ok entry.ips)
    else none

-- Can the entry be served although it is stale?
abbrev pub is_usable : Config → ℕ → Entry → Bool
is_usable c now entry = c.serve_stale && not entry.is_negative && ltb now entry.stale_until

abbrev pub failed_lately : ℕ → Option ℕ → Bool
failed_lately now none = false
failed_lately now (some t) = ltb (now - t) failure_recheck_interval

unfoldable pub recheck_answer : Config → ℕ → Option Entry → Option Answer
recheck_answer c now none = none
recheck_answer c now (some entry) =
    if is_usable c now entry && failed_lately now entry.last_failure
    then some (ok entry.ips)
    else none

abbrev pub stale_entry : Config → ℕ → Option Entry → Option Entry
stale_entry c now none = none
stale_entry c now (some entry) = if is_usable c now entry then some entry else none

abbrev pub ancestor_answer : Config → Store → ℕ → Text → Option DnsError
ancestor_answer c cache now host =
    if c.negative_caching then check_ancestor_nxdomain cache now host else none

abbrev pub or_default : ℤ → ℕ → ℕ
or_default d default = if is_positive d then pos_part d else default

-- t.Add(d)
abbrev pub add_duration : ℕ → ℤ → ℕ
add_duration t (pos n) = t + n
add_duration t (negsuc n) = t - suc n

abbrev pub positive_entry : Config → List Address → ℕ → ℕ → Entry
positive_entry c ips now ttl = record {
  ips = ips;
  neg_err = none;
  is_negative = false;
  fresh_until = now + ttl;
  stale_until = add_duration (now + ttl) c.max_stale_ttl;
  last_failure = none;
}

abbrev pub negative_entry : Config → DnsError → ℕ → Entry
negative_entry c e now =
    let ttl = or_default c.negative_ttl default_negative_ttl in
    record {
      ips = [];
      neg_err = some e;
      is_negative = true;
      fresh_until = now + ttl;
      stale_until = now + ttl;
      last_failure = none;
    }
