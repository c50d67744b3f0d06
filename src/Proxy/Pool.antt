-- ===== src/Proxy/Pool.antt =====
-- proxy/proxy.go: the proxy clients and how the pool of them changes.
use aoni.Base.{
  ℕ, suc, ◌+◌, ◌*◌, ◌<◌, ◌≤◌, ◌≡◌, Bool, true, false, List, [], ◌∷◌, Option, none, some,
  if◌then◌else◌, length, map,
}
use aoni.Base.Int.{ℤ, pos, negsuc}
use aoni.Base.Text.{Text}
use aoni.Base.Foundation.{Foundation}
use aoni.Health.{Tracker, new_tracker, reset, is_available}

-- What the rotator uses of generic.Cache of github.com/lemon4ksan/foundation: the cache of the
-- cooldowns of one client, whose keys are domains, and that of the sessions. The first number of each
-- operation is the clock, and an entry is written with the time for which it lives.
pub record Caches : Type 1 where
  pub Cooldowns : Type 0
  pub no_cooldowns : Cooldowns
  pub has_domain : ℕ → Text → Cooldowns → Bool
  pub put_domain : ℕ → Text → ℕ → Cooldowns → Cooldowns
  pub Sessions : Type 0
  pub no_sessions : Sessions
  pub get_session : ℕ → Text → Sessions → Option ℕ
  pub set_session : ℕ → Text → ℕ → ℕ → Sessions → Sessions

-- An entry is found as long as it lives, writes with other keys included, and there is none in a new
-- cache.
pub record IsCache (c : Caches) : Type 0 where
  pub no_domain : (now : ℕ) (d : Text) → c.has_domain now d c.no_cooldowns ≡ false
  pub has-put :
      (now at : ℕ) (d : Text) (ttl : ℕ) (s : c.Cooldowns)
      → at ≤ now
      → now < at + ttl
      → c.has_domain now d (c.put_domain at d ttl s) ≡ true
  pub no_session : (now : ℕ) (k : Text) → c.get_session now k c.no_sessions ≡ none
  pub get-set :
      (now at : ℕ) (k : Text) (i ttl : ℕ) (s : c.Sessions)
      → at ≤ now
      → now < at + ttl
      → c.get_session now k (c.set_session at k i ttl s) ≡ some i

-- transport is an error of a client; the Boolean says whether errors.Is finds context.Canceled.
pub data Error : Type 0 where
  no_proxy_clients no_healthy_proxies : Error
  transport : ℕ → Bool → Error
  all_proxies_failed : Error → Error
  all_in_cooldown : Text → Error

pub record Response : Type 0 where
  pub status_code : ℕ
  pub body : Text

-- host is the name without the port, key what the sticky key function returns for the request; it is
-- the empty text where it finds none.
pub record Request : Type 0 where
  pub host : Text
  pub key : Text

-- A client with the URL of its proxy, as WithClient gives them; client names the HTTPDoer.
pub record ProxyClient : Type 0 where
  pub client : ℕ
  pub proxy_url : Text

-- max_fails is not 0 after the defaults.
pub record RotatorConfig : Type 0 where
  pub max_fails : ℕ
  pub retry_after : ℤ

pub record RotatorStats : Type 0 where
  pub total_proxies : ℕ
  pub healthy_proxies : ℕ
  pub unhealthy_proxies : ℕ

abbrev pub coalesce_duration : Foundation → ℤ → ℕ → ℤ
coalesce_duration lib (pos n) d = pos (lib.coalesce n d)
coalesce_duration lib (negsuc n) d = negsuc n

module _ (caches : Caches) where
  -- domain_cooldowns is none for a nil cache.
  pub record TrackedClient : Type 0 where
    pub client : ℕ
    pub proxy_url : Text
    pub tracker : Tracker
    pub domain_cooldowns : Option (caches.Cooldowns)

  -- sticky says whether the sticky key function is not nil. current is a uint32.
  pub record Rotator : Type 0 where
    pub clients : List TrackedClient
    pub cfg : RotatorConfig
    pub sticky : Bool
    pub sessions : caches.Sessions
    pub session_ttl : ℕ
    pub current : ℕ

  unfoldable pub is_domain_cooled_down : ℕ → Text → TrackedClient → Bool
  is_domain_cooled_down now domain tc = elim tc.domain_cooldowns [
    | none ↦ false
    | some cache ↦ caches.has_domain now domain cache
  ]

  abbrev or_new : Option (caches.Cooldowns) → caches.Cooldowns
  or_new none = caches.no_cooldowns
  or_new (some cache) = cache

  unfoldable pub put_domain_in_cooldown : ℕ → Text → ℕ → TrackedClient → TrackedClient
  put_domain_in_cooldown now domain duration tc = record tc {
    domain_cooldowns = some (caches.put_domain now domain duration (or_new tc.domain_cooldowns));
  }

  unfoldable pub setup_client : Foundation → RotatorConfig → ProxyClient → TrackedClient
  setup_client lib cfg cp = record {
    client = cp.client;
    proxy_url = cp.proxy_url;
    tracker = new_tracker lib cp.proxy_url cfg.max_fails cfg.retry_after true true;
    domain_cooldowns = some caches.no_cooldowns;
  }

  abbrev default_session_ttl : ℕ
  default_session_ttl = 24 * 3600 * 1000000000

  abbrev with_defaults : Foundation → RotatorConfig → RotatorConfig
  with_defaults lib cfg = record {
    max_fails = lib.coalesce cfg.max_fails 3;
    retry_after = coalesce_duration lib cfg.retry_after (30 * 1000000000);
  }

  -- none is ErrNoProxyClients.
  unfoldable pub new_rotator : Foundation → RotatorConfig → List ProxyClient → Option Rotator
  new_rotator lib cfg [] = none
  new_rotator lib cfg (cp ∷ cps) = some (record {
    clients = map (setup_client lib (with_defaults lib cfg)) (cp ∷ cps);
    cfg = with_defaults lib cfg;
    sticky = false;
    sessions = caches.no_sessions;
    session_ttl = default_session_ttl;
    current = 0;
  })

  unfoldable pub with_sticky_sessions : Rotator → Rotator
  with_sticky_sessions r = record r { sessions = caches.no_sessions; sticky = true }

  unfoldable pub update_clients : Foundation → List ProxyClient → Rotator → Rotator
  update_clients lib [] r = r
  update_clients lib (cp ∷ cps) r = record r {
    clients = map (setup_client lib r.cfg) (cp ∷ cps);
    current = 0;
    sessions = caches.no_sessions;
  }

  unfoldable pub count_healthy : ℕ → List TrackedClient → ℕ
  count_healthy now [] = 0
  count_healthy now (c ∷ cs) =
      if is_available now c.tracker then suc (count_healthy now cs) else count_healthy now cs

  unfoldable pub count_unhealthy : ℕ → List TrackedClient → ℕ
  count_unhealthy now [] = 0
  count_unhealthy now (c ∷ cs) =
      if is_available now c.tracker then count_unhealthy now cs else suc (count_unhealthy now cs)

  unfoldable pub stats : ℕ → Rotator → RotatorStats
  stats now r = record {
    total_proxies = length r.clients;
    healthy_proxies = count_healthy now r.clients;
    unhealthy_proxies = count_unhealthy now r.clients;
  }

  abbrev healed : TrackedClient → TrackedClient
  healed tc = record tc { tracker = (reset tc.tracker).0 }

  unfoldable pub reset_all : Rotator → Rotator
  reset_all r = record r { clients = map healed r.clients }

  abbrev thawed : TrackedClient → TrackedClient
  thawed tc = record tc { domain_cooldowns = some caches.no_cooldowns }

  unfoldable pub reset_domain_cooldowns : Rotator → Rotator
  reset_domain_cooldowns r = record r { clients = map thawed r.clients }

  unfoldable pub find_client : (ℕ → Bool) → List TrackedClient → Option ℕ
  find_client predicate [] = none
  find_client predicate (tc ∷ tcs) =
      if predicate tc.client then some tc.client else find_client predicate tcs
