-- ===== src/Dns/StaleFirst.antt =====
-- dns/stale.go: the resolver that serves an expired answer and refreshes it in the background. Times
-- and durations are nanoseconds, not negative; the end of a refresh is a step of its own.
use aoni.Base.{
  ℕ, ◌+◌, ◌-◌, ◌≤◌, ◌<◌, ◌≡◌, refl, ◌∙◌, Bool, true, false, ◌||◌, List, [], ◌∷◌, Option, none, some,
  arith, ltb, leb, ◌==◌, if◌then◌else◌,
}
use aoni.Base.Text.{Text, text_eq, text_eq_refl, is_empty}
use aoni.Dns.Cache.{Address, Answer, ok, err}

pub record StaleOptions : Type 0 where
  pub max_expired_time : ℕ
  pub stale_delay : ℕ
  pub default_ttl : ℕ

pub record StaleEntry : Type 0 where
  pub addrs : List Address
  pub expires_at : ℕ
  pub fetched_at : ℕ

-- The cache, and the hosts whose refresh is in flight.
pub record StaleResolver : Type 0 where
  pub cache : Text → Option StaleEntry
  pub inflight : Text → Bool

-- net.ParseIP, and the delegate, whose calls may have a time limit.
pub record Upstream : Type 0 where
  pub parse_ip : Text → Option Address
  pub delegate : Option ℕ → Text → Answer

abbrev pub is_fresh : ℕ → StaleEntry → Bool
is_fresh now e = ltb now e.expires_at

abbrev pub is_usable_stale : ℕ → ℕ → StaleEntry → Bool
is_usable_stale now max_expired e = (max_expired == 0) || leb (now - e.expires_at) max_expired

abbrev store_addrs : StaleOptions → ℕ → Text → List Address → StaleResolver → StaleResolver
store_addrs o now host addrs s = record s {
  cache = λ h.
      if text_eq h host
      then some (record { addrs = addrs; expires_at = now + o.default_ttl; fetched_at = now })
      else s.cache h;
}

abbrev kept_answer : StaleOptions → ℕ → Text → Answer → StaleResolver → StaleResolver
kept_answer o now host (err e) s = s
kept_answer o now host (ok []) s = s
kept_answer o now host (ok (a ∷ addrs)) s = store_addrs o now host (a ∷ addrs) s

unfoldable pub fetch_and_cache :
    StaleOptions → Upstream → ℕ → Text → StaleResolver → Answer × StaleResolver
fetch_and_cache o u now host s =
    (u.delegate none host, kept_answer o now host (u.delegate none host) s)

-- A refresh begins unless one is in flight.
abbrev pub trigger_background_refresh : Text → StaleResolver → StaleResolver
trigger_background_refresh host s = record s {
  inflight = λ h. if text_eq h host then true else s.inflight h;
}

-- A refresh ends with an answer of the delegate.
unfoldable pub end_refresh : StaleOptions → ℕ → Text → Answer → StaleResolver → StaleResolver
end_refresh o now host a s =
    let kept = kept_answer o now host a s in
    record kept { inflight = λ h. if text_eq h host then false else kept.inflight h }

-- What is made of the answer that came in time, or of the lack of one.
abbrev in_time : Text → StaleEntry → Answer → StaleResolver → Answer × StaleResolver
in_time host e (ok (a ∷ addrs)) s = (ok (a ∷ addrs), s)
in_time host e (ok []) s = (ok e.addrs, trigger_background_refresh host s)
in_time host e (err x) s = (ok e.addrs, trigger_background_refresh host s)

abbrev serve_stale_entry :
    StaleOptions → Upstream → Text → StaleEntry → StaleResolver → Answer × StaleResolver
serve_stale_entry o u host e s =
    if o.stale_delay == 0
    then (ok e.addrs, trigger_background_refresh host s)
    else in_time host e (u.delegate (some o.stale_delay) host) s

-- The clock is read at the start, and again when an answer is stored.
abbrev lookup_cached :
    StaleOptions
    → Upstream
    → ℕ
    → ℕ
    → Text
    → Option StaleEntry
    → StaleResolver
    → Answer × StaleResolver
lookup_cached o u now stored_at host none s = fetch_and_cache o u stored_at host s
lookup_cached o u now stored_at host (some e) s =
    if is_fresh now e
    then (ok e.addrs, s)
    else if is_usable_stale now o.max_expired_time e
    then serve_stale_entry o u host e s
    else fetch_and_cache o u stored_at host s

abbrev lookup_host :
    StaleOptions → Upstream → ℕ → ℕ → Text → Option Address → StaleResolver → Answer × StaleResolver
lookup_host o u now stored_at host (some ip) s = (ok (ip ∷ []), s)
lookup_host o u now stored_at host none s = lookup_cached o u now stored_at host (s.cache host) s

unfoldable pub stale_lookup_ip_addr :
    StaleOptions → Upstream → ℕ → ℕ → Text → StaleResolver → Answer × StaleResolver
stale_lookup_ip_addr o u now stored_at host s =
    if is_empty host then (ok [], s) else lookup_host o u now stored_at host (u.parse_ip host) s

stale_lookup_ip_addr-cached :
    (o : StaleOptions) (u : Upstream) (now stored_at : ℕ) (host : Text) (e : StaleEntry)
    (s : StaleResolver)
    → is_empty host ≡ false
    → u.parse_ip host ≡ none
    → s.cache host ≡ some e
    → stale_lookup_ip_addr o u now stored_at host s
      ≡ lookup_cached o u now stored_at host (some e) s
unfolding stale_lookup_ip_addr
stale_lookup_ip_addr-cached o u now stored_at host e s n p c = rw (n, p, c) refl

stale_lookup_ip_addr-stale :
    (o : StaleOptions) (u : Upstream) (now stored_at : ℕ) (host : Text) (e : StaleEntry)
    (s : StaleResolver)
    → is_empty host ≡ false
    → u.parse_ip host ≡ none
    → s.cache host ≡ some e
    → is_fresh now e ≡ false
    → is_usable_stale now o.max_expired_time e ≡ true
    → (o.stale_delay == 0) ≡ true
    → stale_lookup_ip_addr o u now stored_at host s
      ≡ (ok e.addrs, trigger_background_refresh host s)
stale_lookup_ip_addr-stale o u now stored_at host e s n p c f us d =
    stale_lookup_ip_addr-cached o u now stored_at host e s n p c ∙ rw (lookup_cached, f, us, d) refl

stale_lookup_ip_addr-fresh :
    (o : StaleOptions) (u : Upstream) (now stored_at : ℕ) (host : Text) (e : StaleEntry)
    (s : StaleResolver)
    → is_empty host ≡ false
    → u.parse_ip host ≡ none
    → s.cache host ≡ some e
    → is_fresh now e ≡ true
    → stale_lookup_ip_addr o u now stored_at host s ≡ (ok e.addrs, s)
stale_lookup_ip_addr-fresh o u now stored_at host e s n p c f =
    stale_lookup_ip_addr-cached o u now stored_at host e s n p c ∙ rw (lookup_cached, f) refl

-- An expired answer that is still usable is served at once when there is no delay, whatever the
-- delegate would say. When the refresh that this begins ends with addresses, they are the answer of
-- every lookup that starts before their time to live is over, again whatever the delegate would say.
-- (The host is not empty and no address itself.)
pub stale_lookup_ip_addr-refreshes :
    (o : StaleOptions) (u u' : Upstream) (now stored_at ended_at later stored_later : ℕ)
    (host : Text) (e : StaleEntry) (a : Address) (addrs : List Address) (s : StaleResolver)
    → is_empty host ≡ false
    → u.parse_ip host ≡ none
    → u'.parse_ip host ≡ none
    → s.cache host ≡ some e
    → o.stale_delay ≡ 0
    → e.expires_at ≤ now
    → now ≤ e.expires_at + o.max_expired_time
    → later < ended_at + o.default_ttl
    → let first = stale_lookup_ip_addr o u now stored_at host s in
      let refreshed = end_refresh o ended_at host (ok (a ∷ addrs)) first.1 in
      (first.0 ≡ ok e.addrs)
      × ((first.1.inflight host ≡ true)
          × (stale_lookup_ip_addr o u' later stored_later host refreshed
              ≡ (ok (a ∷ addrs), refreshed)))
unfolding end_refresh
stale_lookup_ip_addr-refreshes o u u' now stored_at ended_at later stored_later host e a addrs s n p
      p' c d old usable early =
    let refreshed =
      end_refresh o ended_at host (ok (a ∷ addrs)) (trigger_background_refresh host s) in
    let kept : StaleEntry = record {
      addrs = a ∷ addrs;
      expires_at = ended_at + o.default_ttl;
      fetched_at = ended_at;
    } in
    rw
      (stale_lookup_ip_addr-stale o u now stored_at host e s n p c (ground arith) (ground arith)
        (ground arith))
      (
        refl,
        (
          rw (text_eq_refl host) refl,
          stale_lookup_ip_addr-fresh o u' later stored_later host kept refreshed n p'
              (rw (text_eq_refl host) refl) (ground arith),
        ),
      )
