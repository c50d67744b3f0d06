-- ===== src/Dns/Cache/Negative.antt =====
-- dns/cache.go: a name that does not exist, and the names below it.
use aoni.Base.{
  ℕ, ◌+◌, ◌<◌, ◌≡◌, refl, ap, ◌∙◌, inl, inr, Bool, true, false, List, [], ◌∷◌, ◌++◌, Option, none,
  some, arith, ltb, ◌==◌, ◌&&◌, if◌then◌else◌, Bool-cases, Option-cases, length, length-append,
}
use aoni.Base.Text.{Text, bytes, text_eq, text_eq_refl, eq_of_text_eq, is_empty}
use aoni.Dns.Error.{
  DnsError, nxdomain, no_data, no_resolvers_configured, empty_records, dns_error, other, wrapped,
  resolution, is_not_found, is_nxdomain, wrap_dns_error,
}
use aoni.Dns.Cache.{
  Entry, Config, err, Resolver, Store, store, default_negative_ttl, negative_entry, ancestor_answer,
  cut, is_cut, or_default, check_ancestor_nxdomain,
}
use aoni.Dns.Cache.Lookup.{Clock, settle, lookup_ip_addr}
use aoni.Dns.Cache.Fresh.{lookup_ip_addr-unknown, lookup_ip_addr-ancestor}

is_not_found-nxdomain : (e : DnsError) → is_nxdomain e ≡ true → is_not_found e ≡ true
unfolding is_nxdomain is_not_found
is_not_found-nxdomain nxdomain h = refl
is_not_found-nxdomain no_data h = refl
is_not_found-nxdomain no_resolvers_configured h = cc
is_not_found-nxdomain empty_records h = cc
is_not_found-nxdomain (dns_error not_found timeout) h = h
is_not_found-nxdomain (other k timeout) h = cc
is_not_found-nxdomain (wrapped e) h = is_not_found-nxdomain e h
is_not_found-nxdomain (resolution host resolver endpoint e timeout) h = is_not_found-nxdomain e h

cut_error :
    (fresh : Bool) (o : Option DnsError) (e : DnsError)
    → (if fresh && is_cut o then o else none) ≡ some e
    → is_nxdomain e ≡ true
cut_error fresh none e h = ground arith
cut_error false (some x) e h = cc
cut_error true (some x) e h = elim (Bool-cases (is_nxdomain x)) [
  | inl k ↦ ground arith
  | inr k ↦ ground arith
]

is_nxdomain-cut :
    (now : ℕ) (entry : Option Entry) (e : DnsError) → cut now entry ≡ some e → is_nxdomain e ≡ true
unfolding cut
is_nxdomain-cut now none e h = cc
is_nxdomain-cut now (some entry) e h =
    cut_error (entry.is_negative && ltb now entry.fresh_until) entry.neg_err e h

is_empty-joined : (prefix host : Text) → is_empty (prefix ++ (b'.' ∷ host)) ≡ false
is_empty-joined [] host = refl
is_empty-joined (c ∷ prefix) host = refl

-- A name that is cut off cuts off every name below it.
pub check_ancestor_nxdomain-below :
    (cache : Store) (now : ℕ) (prefix host : Text) (e : DnsError)
    → is_empty host ≡ false
    → cut now (cache host) ≡ some e
    → (e' : DnsError) × ((check_ancestor_nxdomain cache now (prefix ++ (b'.' ∷ host)) ≡ some e')
        × (is_nxdomain e' ≡ true))
unfolding check_ancestor_nxdomain
check_ancestor_nxdomain-below cache now [] host e h k =
    (e, (rw (check_ancestor_nxdomain, h, k) refl, is_nxdomain-cut now (cache host) e k))
check_ancestor_nxdomain-below cache now (c ∷ prefix) host e h k =
    let name = prefix ++ (b'.' ∷ host) in
    let (e', (below, nx)) = check_ancestor_nxdomain-below cache now prefix host e h k in
    elim (Bool-cases (c == b'.')) [
      | inr letter ↦ (e', (rw (check_ancestor_nxdomain, letter) below, nx))
      | inl dot ↦ elim (Option-cases (cut now (cache name))) [
        | inl n ↦
            (e', (rw (check_ancestor_nxdomain, dot, is_empty-joined prefix host, n) below, nx))
        | inr (x, found) ↦ (
          x,
          (
            rw (check_ancestor_nxdomain, dot, is_empty-joined prefix host, found) refl,
            is_nxdomain-cut now (cache name) x found,
          ),
        )
      ]
    ]

abbrev pub negative_ttl_of : Config → ℕ
negative_ttl_of c = or_default c.negative_ttl default_negative_ttl

cut-store :
    (c : Config) (now at : ℕ) (host : Text) (e : DnsError) (cache : Store)
    → is_nxdomain e ≡ true
    → now < at + negative_ttl_of c
    → cut now (store host (negative_entry c e at) cache host) ≡ some e
unfolding cut
cut-store c now at host e cache nx early = rw (text_eq_refl host) ground arith

is_below-apart : (prefix host : Text) → text_eq (prefix ++ (b'.' ∷ host)) host ≡ false
is_below-apart prefix host = elim (Bool-cases (text_eq (prefix ++ (b'.' ∷ host)) host)) [
  | inr apart ↦ apart
  | inl same ↦ absurd (
      omega (
        arith,
        ap length (eq_of_text_eq (prefix ++ (b'.' ∷ host)) host same),
        length-append prefix (b'.' ∷ host),
      ))
]

module _ (select_rrset_ttl : List ℕ → ℕ) where
  lookup_ip_addr-denied :
      (c : Config) (r : Resolver) (t : Clock) (host : Text) (e : DnsError) (cache : Store)
      → c.negative_caching ≡ true
      → cache host ≡ none
      → ancestor_answer c cache t.now host ≡ none
      → ancestor_answer c cache t.current_now host ≡ none
      → r.lookup_dns_records ≡ none
      → r.lookup_ip_addr none host ≡ err e
      → is_nxdomain e ≡ true
      → lookup_ip_addr select_rrset_ttl c r t host cache ≡ (
        err (wrap_dns_error host (bytes "InMemoryCache") [] e),
        store host (negative_entry c e t.current_now) cache,
      )
  unfolding settle
  lookup_ip_addr-denied c r t host e cache on h an an' plain answer nx =
      lookup_ip_addr-unknown select_rrset_ttl c r t host cache h an an'
      ∙ rw (plain, answer, on, is_not_found-nxdomain e nx) refl

  lookup_ip_addr-cut :
      (c : Config) (r : Resolver) (t : Clock) (prefix host : Text) (e : DnsError) (cache : Store)
      → c.negative_caching ≡ true
      → is_empty host ≡ false
      → cache (prefix ++ (b'.' ∷ host)) ≡ none
      → cut t.now (cache host) ≡ some e
      → (e' : DnsError) × ((lookup_ip_addr select_rrset_ttl c r t (prefix ++ (b'.' ∷ host)) cache
            ≡ (err e', cache))
          × (is_nxdomain e' ≡ true))
  lookup_ip_addr-cut c r t prefix host e cache on nonempty h k =
      let (e', (found, nx)) = check_ancestor_nxdomain-below cache t.now prefix host e nonempty k in
      (
        e',
        (
          lookup_ip_addr-ancestor select_rrset_ttl c r t (prefix ++ (b'.' ∷ host)) cache e' h
              (rw (on, found) refl),
          nx,
        ),
      )

  -- A name that the resolver says does not exist, and the names below it: with negative caching, and
  -- a resolver that gives addresses only, the first lookup of a host that is not empty and not in the
  -- cache, and that no name above it cuts off, gives the resolver's error, wrapped. From then on, for the
  -- negative time to live, every lookup of a name below the host that has no entry of its own gives an
  -- error that is NXDOMAIN as well, without the resolver, and does not change the cache.
  pub lookup_ip_addr-cuts_off :
      (c : Config) (r r' : Resolver) (t t' : Clock) (prefix host : Text) (e : DnsError)
      (cache : Store)
      → c.negative_caching ≡ true
      → is_empty host ≡ false
      → cache host ≡ none
      → cache (prefix ++ (b'.' ∷ host)) ≡ none
      → ancestor_answer c cache t.now host ≡ none
      → ancestor_answer c cache t.current_now host ≡ none
      → r.lookup_dns_records ≡ none
      → r.lookup_ip_addr none host ≡ err e
      → is_nxdomain e ≡ true
      → t'.now < t.current_now + negative_ttl_of c
      → let first = lookup_ip_addr select_rrset_ttl c r t host cache in
        (first.0 ≡ err (wrap_dns_error host (bytes "InMemoryCache") [] e))
        × ((e' : DnsError) × ((lookup_ip_addr select_rrset_ttl c r' t'
                  (prefix ++ (b'.' ∷ host))
                  first.1
                ≡ (err e', first.1))
              × (is_nxdomain e' ≡ true)))
  lookup_ip_addr-cuts_off c r r' t t' prefix host e cache on nonempty h k an an' plain answer nx
        early =
      rw (lookup_ip_addr-denied c r t host e cache on h an an' plain answer nx) (
        refl,
        lookup_ip_addr-cut c r' t' prefix host e
            (store host (negative_entry c e t.current_now) cache) on nonempty
            (rw (is_below-apart prefix host) k)
            (cut-store c t'.now t.current_now host e cache nx early),
      )
