-- ===== src/Proxy/Rotation.antt =====
-- proxy/proxy.go: Do, with the sticky client first and then one round for each client.
use Prim.Native.Nat.{bit_and}
use aoni.Base.{
  ℕ, zero, suc, ◌+◌, ◌-◌, ◌*◌, ◌%◌, ◌^◌, ◌==◌, Bool, true, false, not, ◌&&◌, ◌||◌, List, [], ◌∷◌,
  Option, none, some, if◌then◌else◌, length, get_elem?, set,
}
use aoni.Base.Text.{Text, is_empty}
use aoni.Health.{mark_failed, mark_success, is_available}
use aoni.Proxy.Pool.{
  Caches, Error, no_proxy_clients, no_healthy_proxies, transport, all_proxies_failed,
  all_in_cooldown, Response, Request, TrackedClient, Rotator, is_domain_cooled_down,
  put_domain_in_cooldown,
}

-- What lies outside: the clock when the k-th attempt looks at its client and when it records the
-- outcome, and what a client replies then to a request that names its proxy.
pub record Net : Type 0 where
  pub checked_at : ℕ → ℕ
  pub recorded_at : ℕ → ℕ
  pub reply : ℕ → ℕ → Text → Option Response × Option Error

abbrev is_canceled : Error → Bool
is_canceled (transport n canceled) = canceled
is_canceled (all_proxies_failed e) = is_canceled e
is_canceled _ = false

unfoldable pub is_proxy_fault : Option Response → Option Error → Bool
is_proxy_fault resp (some e) = not (is_canceled e)
is_proxy_fault (some r) none =
    r.status_code == 407
    || (r.status_code == 429
        || (r.status_code == 502 || (r.status_code == 504 || r.status_code == 503)))
is_proxy_fault none none = false

abbrev pub ban_duration : ℕ
ban_duration = 600 * 1000000000

abbrev pub is_forbidden : Option Response → Option Error → Bool
is_forbidden (some r) none = r.status_code == 403
is_forbidden _ _ = false

unfoldable pub is_power_of_two : ℕ → Bool
is_power_of_two n = bit_and n (n - 1) == 0

-- The index of a round and the counter after it. Where n is a power of two, & (n - 1) is % n.
unfoldable pub next_index : ℕ → ℕ → ℕ × ℕ
next_index n current =
    let next = (current + 1) % 2 ^ 32 in
    if is_power_of_two n then ((next + 2 ^ 32 - 1) % 2 ^ 32 % n, next) else (next % n, next)

module _ (caches : Caches) where
  -- What an attempt with one client comes to: accepted is the result of handleProxyResult, without
  -- which the body of a response is closed.
  pub record Attempt : Type 0 where
    pub client : TrackedClient caches
    pub resp : Option Response
    pub error : Option Error
    pub accepted : Bool

  unfoldable pub handle_proxy_result :
      ℕ → Text → TrackedClient caches → Option Response × Option Error → Attempt
  handle_proxy_result now domain tc (resp, error) =
      if is_proxy_fault resp error
      then record {
        client = record tc { tracker = (mark_failed now tc.tracker).0 };
        resp = resp;
        error = error;
        accepted = false;
      }
      else let ok = record tc { tracker = (mark_success tc.tracker).0 } in
        record {
          client =
              if is_forbidden resp error
              then put_domain_in_cooldown caches now domain ban_duration ok
              else ok;
          resp = resp;
          error = error;
          accepted = true;
        }

  -- executeWithProxy and handleProxyResult; the proxy's URL goes with the request's context.
  unfoldable pub attempt : Net → ℕ → Text → TrackedClient caches → Attempt
  attempt net k domain tc =
      handle_proxy_result (net.recorded_at k) domain tc (net.reply k tc.client tc.proxy_url)

  -- Whether a client is skipped at the k-th attempt.
  abbrev pub can_serve : Net → ℕ → Text → TrackedClient caches → Bool
  can_serve net k domain tc =
      is_available (net.checked_at k) tc.tracker
      && not (is_domain_cooled_down caches (net.checked_at k) domain tc)

  -- What Do returns, the clients, the sessions and the counter as it leaves them, and the indices of
  -- the clients that it sent the request to. An index out of range is a panic.
  pub record Outcome : Type 0 where
    pub resp : Option Response
    pub error : Option Error
    pub clients : List (TrackedClient caches)
    pub sessions : caches.Sessions
    pub current : ℕ
    pub sent : List ℕ
    pub panicked : Bool

  abbrev pub final_error : Text → Option Error → Bool → Error
  final_error domain (some e) cooled = all_proxies_failed e
  final_error domain none cooled = if cooled then all_in_cooldown domain else no_healthy_proxies

  abbrev pub save_session : ℕ → Text → ℕ → ℕ → caches.Sessions → caches.Sessions
  save_session now id i ttl sessions =
      if is_empty id then sessions else caches.set_session now id i ttl sessions

  abbrev pub accept : Attempt → List (TrackedClient caches) → ℕ → caches.Sessions → ℕ → Outcome
  accept t clients i sessions current = record {
    resp = t.resp;
    error = t.error;
    clients = set clients i t.client;
    sessions = sessions;
    current = current;
    sent = i ∷ [];
    panicked = false;
  }

  -- The variables of the loop; id is empty where the request has no session.
  pub record Round : Type 0 where
    pub clients : List (TrackedClient caches)
    pub current : ℕ
    pub last_err : Option Error
    pub has_cooled_down : Bool

  module _ (net : Net) (domain id : Text) (sticky_idx : Option ℕ) (sessions : caches.Sessions)
      (ttl : ℕ) where
    abbrev pub is_sticky : ℕ → Bool
    is_sticky i = elim sticky_idx [ none ↦ false | some s ↦ i == s ]

    -- One attempt of the loop with the client at index i, which goes on with rest.
    abbrev pub call_client : ℕ → ℕ → ℕ → TrackedClient caches → Round → (Round → Outcome) → Outcome
    call_client k i next tc r rest =
        let t = attempt net k domain tc in
        let failed =
          rest
            (record r { clients = set r.clients i t.client; current = next; last_err = t.error }) in
        if t.accepted
        then accept t r.clients i (save_session (net.recorded_at k) id i ttl sessions) next
        else record failed { sent = i ∷ failed.sent }

    abbrev pub visit :
        ℕ → ℕ → ℕ → Option (TrackedClient caches) → Round → (Round → Outcome) → Outcome
    visit k i next none r rest = record {
      resp = none;
      error = none;
      clients = r.clients;
      sessions = sessions;
      current = next;
      sent = [];
      panicked = true;
    }
    visit k i next (some tc) r rest =
        if not (is_available (net.checked_at k) tc.tracker)
        then rest (record r { current = next })
        else if is_domain_cooled_down caches (net.checked_at k) domain tc
        then rest (record r { current = next; has_cooled_down = true })
        else call_client k i next tc r rest

    abbrev pub round : ℕ → ℕ × ℕ → Round → (Round → Outcome) → Outcome
    round k (i, next) r rest =
        if is_sticky i
        then rest (record r { current = next })
        else visit k i next (get_elem? r.clients i) r rest

    -- The loop with the given number of rounds left; k counts the attempts.
    unfoldable pub rounds : ℕ → ℕ → Round → Outcome
    rounds zero k r = record {
      resp = none;
      error = some (final_error domain r.last_err r.has_cooled_down);
      clients = r.clients;
      sessions = sessions;
      current = r.current;
      sent = [];
      panicked = false;
    }
    rounds (suc m) k r = round k (next_index (length r.clients) r.current) r (rounds m (suc k))

  -- The client of the session before the rounds, which are rest.
  abbrev pub call_sticky :
      Net
      → Text
      → caches.Sessions
      → ℕ
      → Option (TrackedClient caches)
      → Round
      → (Round → Outcome)
      → Outcome
  call_sticky net domain sessions s none r rest = rest r
  call_sticky net domain sessions s (some tc) r rest =
      let t = attempt net 0 domain tc in
      let failed = rest (record r { clients = set r.clients s t.client; last_err = t.error }) in
      if not (can_serve net 0 domain tc)
      then rest r
      else if t.accepted
      then accept t r.clients s sessions r.current
      else record failed { sent = s ∷ failed.sent }

  abbrev pub sticky_first :
      Net → Text → caches.Sessions → Option ℕ → Round → (Round → Outcome) → Outcome
  sticky_first net domain sessions none r rest = rest r
  sticky_first net domain sessions (some s) r rest =
      call_sticky net domain sessions s (get_elem? r.clients s) r rest

  abbrev pub session_of : Request → Rotator caches → Text
  session_of req r = if r.sticky then req.key else []

  -- getStickyClientIndex, which writes the session that it finds once more.
  unfoldable pub get_sticky_client_index :
      ℕ → Text → ℕ → caches.Sessions → Option ℕ × caches.Sessions
  get_sticky_client_index now id ttl sessions =
      if is_empty id then (none, sessions) else elim (caches.get_session now id sessions) [
        | none ↦ (none, sessions)
        | some i ↦ (some i, caches.set_session now id i ttl sessions)
      ]

  -- Do
  unfoldable pub rotator_do : Net → Request → Rotator caches → Outcome × Rotator caches
  rotator_do net req r =
      let id = session_of req r in
      let found = get_sticky_client_index (net.checked_at 0) id r.session_ttl r.sessions in
      let start : Round = record {
        clients = r.clients;
        current = r.current;
        last_err = none;
        has_cooled_down = false;
      } in
      let out =
        sticky_first net req.host found.1 found.0 start
          (rounds net req.host id found.0 found.1 r.session_ttl (length r.clients) 1) in
      if length r.clients == 0
      then (
        record {
          resp = none;
          error = some no_proxy_clients;
          clients = r.clients;
          sessions = r.sessions;
          current = r.current;
          sent = [];
          panicked = false;
        },
        r,
      )
      else (out, record r { clients = out.clients; sessions = out.sessions; current = out.current })
