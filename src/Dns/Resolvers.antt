-- ===== src/Dns/Resolvers.antt =====
-- dns/dns.go and dns/security.go: the resolvers that try others in turn or know some hosts, and the
-- test that a response is the answer to the query.
use aoni.Base.{
  ℕ, ◌≡◌, ◌↔◌, refl, not, List, [], ◌∷◌, ◌++◌, Option, none, some, All, arith, ◌==◌, if◌then◌else◌,
}
use aoni.Base.Text.{Text, text_eq, text_eq_iff, is_empty, to_lower, trim_suffix_byte}
use aoni.Dns.Error.{DnsError, no_resolvers_configured, wrapped}
use aoni.Dns.Cache.{Address, Answer, ok, err}

-- Resolver.LookupIPAddr.
abbrev pub Lookup : Type 0
Lookup = Text → Answer

-- NewFallbackResolver and NewFastRaceResolver leave out the resolvers that are nil.
abbrev pub new_fallback_resolver : List (Option Lookup) → List Lookup
new_fallback_resolver [] = []
new_fallback_resolver (none ∷ rs) = new_fallback_resolver rs
new_fallback_resolver (some r ∷ rs) = r ∷ new_fallback_resolver rs

abbrev no_answer : Option DnsError → Answer
no_answer none = err no_resolvers_configured
no_answer (some e) = err (wrapped e)

-- The loop, with the last error.
abbrev pub try_resolvers : Option DnsError → List Lookup → Text → Answer
try_resolvers last [] host = no_answer last
try_resolvers last (r ∷ rs) host = elim (r host) [
  | ok ips ↦ ok ips
  | err e ↦ try_resolvers (some e) rs host
]

unfoldable pub fallback_lookup_ip_addr : List Lookup → Text → Answer
fallback_lookup_ip_addr rs host = try_resolvers none rs host

abbrev pub Mapping : Type 0
Mapping = Text → Option (List Address)

abbrev parse_all : (Text → Option Address) → List Text → List Address
parse_all parse_ip [] = []
parse_all parse_ip (s ∷ rest) = elim (parse_ip s) [
  | none ↦ parse_all parse_ip rest
  | some ip ↦ ip ∷ parse_all parse_ip rest
]

abbrev put_host : Text → List Address → Mapping → Mapping
put_host host [] m h = m h
put_host host (ip ∷ ips) m h = if text_eq h host then some (ip ∷ ips) else m h

-- The hosts in the order in which the range over the map gives them. parse_ip is net.ParseIP.
abbrev map_hosts : (Text → Option Address) → List (Text × List Text) → Mapping → Mapping
map_hosts parse_ip [] m = m
map_hosts parse_ip ((host, ips) ∷ rest) m =
    map_hosts parse_ip rest (put_host (to_lower host) (parse_all parse_ip ips) m)

unfoldable pub new_static_resolver : (Text → Option Address) → List (Text × List Text) → Mapping
new_static_resolver parse_ip hosts = map_hosts parse_ip hosts (λ h. none)

abbrev known_or : Option (List Address) → Answer → Answer
known_or none a = a
known_or (some ips) a = ok ips

unfoldable pub static_lookup_ip_addr : Mapping → Lookup → Lookup
static_lookup_ip_addr m delegate host =
    known_or (m (to_lower (trim_suffix_byte b'.' host))) (delegate host)

abbrev pub first_of : List Address → Option Address
first_of [] = none
first_of (ip ∷ ips) = if is_empty ip then none else some ip

-- An address that is nil is empty.
unfoldable pub lookup_first_ip : Option Lookup → Text → Option Address
lookup_first_ip none host = none
lookup_first_ip (some r) host = elim (r host) [ err e ↦ none | ok ips ↦ first_of ips ]

-- Does the lookup fail?
abbrev pub Fails : Text → Lookup → Type 0
Fails host r = (e : DnsError) × (r host ≡ err e)

try_resolvers-first :
    (last : Option DnsError) (before after : List Lookup) (r : Lookup) (host : Text)
    (ips : List Address)
    → All (Fails host) before
    → r host ≡ ok ips
    → try_resolvers last (before ++ (r ∷ after)) host ≡ ok ips
try_resolvers-first last [] after r host ips h e = rw (try_resolvers, e) refl
try_resolvers-first last (x ∷ before) after r host ips ((err_of, k), h) e =
    rw (try_resolvers, k) (try_resolvers-first (some err_of) before after r host ips h e)

try_resolvers-none :
    (last : Option DnsError) (rs : List Lookup) (r : Lookup) (host : Text) (e : DnsError)
    → All (Fails host) rs
    → r host ≡ err e
    → try_resolvers last (rs ++ (r ∷ [])) host ≡ err (wrapped e)
try_resolvers-none last [] r host e h k = rw (try_resolvers, k) refl
try_resolvers-none last (x ∷ rs) r host e ((x_err, xk), h) k =
    rw (try_resolvers, xk) (try_resolvers-none (some x_err) rs r host e h k)

-- The resolvers of a fallback are asked in their order: behind some that fail, the first that answers
-- gives the answer, whatever the ones after it would say.
fallback_lookup_ip_addr-first :
    (before after : List Lookup) (r : Lookup) (host : Text) (ips : List Address)
    → All (Fails host) before
    → r host ≡ ok ips
    → fallback_lookup_ip_addr (before ++ (r ∷ after)) host ≡ ok ips
unfolding fallback_lookup_ip_addr
fallback_lookup_ip_addr-first before after r host ips h e =
    try_resolvers-first none before after r host ips h e

pub fallback_lookup_ip_addr-none :
    (rs : List Lookup) (r : Lookup) (host : Text) (e : DnsError)
    → All (Fails host) rs
    → r host ≡ err e
    → fallback_lookup_ip_addr (rs ++ (r ∷ [])) host ≡ err (wrapped e)
unfolding fallback_lookup_ip_addr
fallback_lookup_ip_addr-none rs r host e h k = try_resolvers-none none rs r host e h k

pub data Spoofed : Type 0 where
  spoofed_id spoofed_qname spoofed_qtype spoofed_qclass : Spoofed

pub record Question : Type 0 where
  pub id : ℕ
  pub qname : Text
  pub qtype : ℕ
  pub qclass : ℕ

abbrev pub clean_name : Text → Text
clean_name s = trim_suffix_byte b'.' (to_lower s)

-- none is no error.
unfoldable pub validate_query_match : Question → Question → Option Spoofed
validate_query_match expected actual =
    if not (expected.id == actual.id)
    then some spoofed_id
    else if not (text_eq (clean_name expected.qname) (clean_name actual.qname))
    then some spoofed_qname
    else if not (expected.qtype == actual.qtype)
    then some spoofed_qtype
    else if not (expected.qclass == actual.qclass)
    then some spoofed_qclass
    else none

-- A response is taken for the answer to a query exactly if the transaction identifiers, the types and
-- the classes agree, and the names are the same up to the case of their letters and one dot at the end.
validate_query_match_iff :
    (expected actual : Question)
    → (validate_query_match expected actual ≡ none) ↔ (
        (expected.id ≡ actual.id)
        × ((clean_name expected.qname ≡ clean_name actual.qname)
            × ((expected.qtype ≡ actual.qtype) × (expected.qclass ≡ actual.qclass))))
unfolding validate_query_match
validate_query_match_iff expected actual =
    let names = text_eq_iff (clean_name expected.qname) (clean_name actual.qname) in
    (
      λ h. (ground arith, (names.0 (ground arith), (ground arith, ground arith))),
      λ (a, (b, (c, d))). ground (arith, names.1 b),
    )
