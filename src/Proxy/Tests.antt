-- ===== src/Proxy/Tests.antt =====
-- Runs and instances for the proxy rotator.
use aoni.Base.{
  ℕ, ◌+◌, ◌≡◌, ◌≢◌, refl, Bool, true, false, [], ◌∷◌, Option, none, some, arith, ◌==◌, ltb,
  if◌then◌else◌, get_elem?, All,
}
use aoni.Base.Int.{pos}
use aoni.Base.Text.{Text, bytes, text_eq, text_eq_refl}
use aoni.Health.{Tracker, is_available, mark_failed, mark_success}
use aoni.Balancer.Order.Occurs.{Occurs}
use aoni.Proxy.Pool.{
  Caches, IsCache, Error, no_healthy_proxies, transport, Response, Request, TrackedClient, Rotator,
  is_domain_cooled_down, put_domain_in_cooldown,
}
use aoni.Proxy.Rotation.{
  Net, is_proxy_fault, is_power_of_two, next_index, handle_proxy_result, attempt, rounds,
  get_sticky_client_index, rotator_do,
}
use aoni.Proxy.Served.{Serves, IsServed, rotator_do-Serves}
use aoni.Proxy.Once.{Distinct, rotator_do-Distinct}
use aoni.Proxy.Cooldown.{rotator_do-forbidden}
use aoni.Proxy.Sticky.{rotator_do-sticky}

-- Entries are functions of the key; an entry dies when its time is over.
abbrev alive : ℕ → Option ℕ → Bool
alive now none = false
alive now (some until) = ltb now until

abbrev found : ℕ → Option (ℕ × ℕ) → Option ℕ
found now none = none
found now (some (i, until)) = if ltb now until then some i else none

abbrev tables : Caches
tables = record {
  Cooldowns = Text → Option ℕ;
  no_cooldowns = λ d. none;
  has_domain = λ now d s. alive now (s d);
  put_domain = λ at d ttl s k. if text_eq k d then some (at + ttl) else s k;
  Sessions = Text → Option (ℕ × ℕ);
  no_sessions = λ k. none;
  get_session = λ now k s. found now (s k);
  set_session = λ at k i ttl s j. if text_eq j k then some (i, at + ttl) else s j;
}

tables-IsCache : IsCache tables
tables-IsCache = record {
  no_domain = λ now d. refl;
  has-put = λ now at d ttl s le lt. rw (text_eq_refl d) (ground arith);
  no_session = λ now k. refl;
  get-set = λ now at k i ttl s le lt.
      rw (text_eq_refl k) (let h : ltb now (at + ttl) ≡ true = ground arith in rw h refl);
}

abbrev healthy : Tracker
healthy = record {
  name = bytes "p";
  max_fails = 3;
  retry_after = 100;
  fail_count = 0;
  recovered_at = pos 0;
  is_unhealthy = false;
  on_unhealthy = true;
  on_recovered = true;
}

abbrev proxy : ℕ → TrackedClient tables
proxy n = record {
  client = n;
  proxy_url = bytes "socks5://p";
  tracker = healthy;
  domain_cooldowns = none;
}

abbrev pool : Rotator tables
pool = record {
  clients = proxy 0 ∷ proxy 1 ∷ proxy 2 ∷ [];
  cfg = record { max_fails = 3; retry_after = pos 100 };
  sticky = true;
  sessions = tables.no_sessions;
  session_ttl = 1000;
  current = 0;
}

abbrev req : Request
req = record { host = bytes "a.b"; key = bytes "u" }

abbrev reply_with : ℕ → Option Response × Option Error
reply_with n = (some (record { status_code = n; body = [] }), none)

-- Client 1 cannot be reached, client 2 answers with the given status, and client 0 does too.
abbrev net : ℕ → ℕ → Net
net start code = record {
  checked_at = λ k. start;
  recorded_at = λ k. start;
  reply = λ k c u. if c == 1 then (none, some (transport 7 false)) else reply_with code;
}

-- Client 2, the one that serves at every time.
serving : Serves tables (net 5 200) req.host (proxy 2)
unfolding is_available is_domain_cooled_down is_proxy_fault
serving = record { available = λ k. refl; warm = λ k. refl; no_fault = λ k. refl }

rotator_do-Serves_example : IsServed tables (rotator_do tables (net 5 200) req pool).0
rotator_do-Serves_example =
    rotator_do-Serves tables (net 5 200) req pool 2 (proxy 2) refl serving (omega arith)

rotator_do-Distinct_example : Distinct (rotator_do tables (net 5 503) req pool).0.sent
rotator_do-Distinct_example = rotator_do-Distinct tables (net 5 503) req pool (omega arith)

rotator_do-forbidden_example :
    (i : ℕ) × Occurs i (rotator_do tables (net 5 403) req pool).0.sent
    × All
        (λ j. j ≢ i)
        (rotator_do tables (net 9 200) req (rotator_do tables (net 5 403) req pool).1).0.sent
unfolding rotator_do get_sticky_client_index rounds next_index is_power_of_two attempt
    handle_proxy_result is_proxy_fault is_domain_cooled_down put_domain_in_cooldown is_available
    mark_failed mark_success
rotator_do-forbidden_example =
    rotator_do-forbidden tables tables-IsCache (net 5 403) (net 9 200) req req pool
      (record { status_code = 403; body = [] }) refl refl refl refl
      (λ m k. (omega arith, omega arith))

two_calls : (rotator_do tables (net 5 200) req pool).0.sent ≡ 1 ∷ 2 ∷ []
unfolding rotator_do get_sticky_client_index rounds next_index is_power_of_two attempt
    handle_proxy_result is_proxy_fault is_domain_cooled_down put_domain_in_cooldown is_available
    mark_failed mark_success
two_calls = refl

-- The clients were called, and the error says that none of them is healthy.
all_busy :
    ((rotator_do tables (net 5 503) req pool).0.sent ≡ 1 ∷ 2 ∷ 0 ∷ [])
    × ((rotator_do tables (net 5 503) req pool).0.error ≡ some no_healthy_proxies)
unfolding rotator_do get_sticky_client_index rounds next_index is_power_of_two attempt
    handle_proxy_result is_proxy_fault is_domain_cooled_down put_domain_in_cooldown is_available
    mark_failed mark_success
all_busy = (refl, refl)

rotator_do-sticky_example :
    get_elem?
      (rotator_do tables (net 9 200) req (rotator_do tables (net 5 200) req pool).1).0.sent
      0
    ≡ some 2
unfolding rotator_do get_sticky_client_index rounds next_index is_power_of_two attempt
    handle_proxy_result is_proxy_fault is_domain_cooled_down put_domain_in_cooldown is_available
    mark_failed mark_success
rotator_do-sticky_example =
    rotator_do-sticky tables tables-IsCache (net 5 200) (net 9 200) req req pool
      (record { status_code = 200; body = [] }) 2 (proxy 2) refl refl refl refl refl
      (λ k. (omega arith, omega arith)) (omega arith) (omega arith) refl refl
