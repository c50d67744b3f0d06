-- ===== src/Balancer/Pool.antt =====
-- resiliency/loadbalancer/loadbalancer.go: the backends, how the pool of them changes,
-- and the probes.
use aoni.Base.{
  ℕ, suc, ◌*◌, Bool, true, false, ◌&&◌, List, [], ◌∷◌, Option, none, some, ltb, leb, if◌then◌else◌,
  length, map,
}
use aoni.Base.Int.{ℤ, pos, negsuc}
use aoni.Base.Text.{Text, text_eq}
use aoni.Base.Foundation.{Foundation}
use aoni.Health.{Tracker, new_tracker, mark_success, reset, is_available}

pub data Strategy : Type 0 where
  round_robin random weighted_round_robin : Strategy

-- transport is an error of a client; the Boolean says whether errors.Is finds context.Canceled.
pub data Error : Type 0 where
  no_backends no_healthy_backends : Error
  transport : ℕ → Bool → Error
  invalid_backend_url : Text → Error
  all_backends_failed : Error → Error

pub record Request : Type 0 where
  pub scheme : Text
  pub host : Text
  pub path : Text

pub record Response : Type 0 where
  pub status_code : ℕ
  pub body : Text

-- client names the HTTPDoer. parsed_url is none when url.Parse failed.
pub record Backend : Type 0 where
  pub url : Text
  pub weight : ℤ
  pub client : ℕ
  pub parsed_url : Option (Text × Text)
  pub tracker : Tracker

pub record Balancer : Type 0 where
  pub backends : List Backend
  pub strategy : Strategy
  pub max_fails : ℕ
  pub retry_after : ℤ
  pub current : ℕ

-- What lies outside: the clock when the k-th attempt of a request looks at its backend and when it
-- records the outcome, and what a client replies then.
pub record Net : Type 0 where
  pub checked_at : ℕ → ℕ
  pub recorded_at : ℕ → ℕ
  pub reply : ℕ → ℕ → Request → Option Response × Option Error

module _ (lib : Foundation) (parse : Text → Option (Text × Text)) where
  -- A negative duration is not zero.
  abbrev coalesce_duration : ℤ → ℕ → ℤ
  coalesce_duration (pos n) d = pos (lib.coalesce n d)
  coalesce_duration (negsuc n) d = negsuc n

  unfoldable pub create_backend : ℕ → ℤ → ℕ → Text → Backend
  create_backend max_fails retry_after client u = record {
    url = u;
    weight = pos 1;
    client = client;
    parsed_url = parse u;
    tracker = new_tracker lib u max_fails retry_after true true;
  }

  -- client is the http.Client with a timeout that each backend starts with.
  unfoldable pub create_backends : ℕ → ℤ → ℕ → List Text → List Backend
  create_backends max_fails retry_after client urls =
      map (create_backend max_fails retry_after client) urls

  -- none is ErrNoBackends.
  unfoldable pub new : Strategy → ℕ → ℤ → ℕ → List Text → Option Balancer
  new strategy max_fails retry_after client [] = none
  new strategy max_fails retry_after client (u ∷ urls) =
      let fails = lib.coalesce max_fails 3 in
      let pause = coalesce_duration retry_after (30 * 1000000000) in
      some (record {
        backends = create_backends fails pause client (u ∷ urls);
        strategy = strategy;
        max_fails = fails;
        retry_after = pause;
        current = 0;
      })

  unfoldable pub set_backend_pool : List Backend → Balancer → Balancer
  set_backend_pool [] lb = lb
  set_backend_pool (b ∷ bs) lb = record lb { backends = b ∷ bs; current = 0 }

  unfoldable pub update_backends : ℕ → List Text → Balancer → Balancer
  update_backends client [] lb = lb
  update_backends client (u ∷ urls) lb =
      set_backend_pool (create_backends lb.max_fails lb.retry_after client (u ∷ urls)) lb

abbrev pub available_at : ℕ → Backend → Bool
available_at now b = is_available now b.tracker

pub record Stats : Type 0 where
  pub total_backends : ℕ
  pub healthy_backends : ℕ
  pub unhealthy_backends : ℕ

unfoldable pub healthy_count : ℕ → List Backend → ℕ
healthy_count now [] = 0
healthy_count now (b ∷ bs) =
    if available_at now b then suc (healthy_count now bs) else healthy_count now bs

unfoldable pub unhealthy_count : ℕ → List Backend → ℕ
unhealthy_count now [] = 0
unhealthy_count now (b ∷ bs) =
    if available_at now b then unhealthy_count now bs else suc (unhealthy_count now bs)

unfoldable pub stats : ℕ → Balancer → Stats
stats now lb = record {
  total_backends = length lb.backends;
  healthy_backends = healthy_count now lb.backends;
  unhealthy_backends = unhealthy_count now lb.backends;
}

unfoldable pub set_weight_in : Text → ℤ → List Backend → Option (List Backend)
set_weight_in url weight [] = none
set_weight_in url weight (b ∷ bs) =
    if text_eq b.url url
    then some (record b { weight = weight } ∷ bs)
    else elim (set_weight_in url weight bs) [ none ↦ none | some rest ↦ some (b ∷ rest) ]

unfoldable pub set_weight : Text → ℤ → Balancer → Bool × Balancer
set_weight url weight lb = elim (set_weight_in url weight lb.backends) [
  | none ↦ (false, lb)
  | some bs ↦ (true, record lb { backends = bs })
]

abbrev pub reset_backend : Backend → Backend
reset_backend b = record b { tracker = (reset b.tracker).0 }

unfoldable pub reset_all : Balancer → Balancer
reset_all lb = record lb { backends = map reset_backend lb.backends }

-- The reply of a probe to its client, at that time.
abbrev pub Probe : Type 0
Probe = ℕ → Option Response × Option Error

abbrev pub probed : Option Response × Option Error → Backend → Backend
probed (some r, none) b =
    if leb 200 r.status_code && ltb r.status_code 300
    then record b { tracker = (mark_success b.tracker).0 }
    else b
probed (none, none) b = b
probed (resp, some e) b = b

-- A backend always has a client, and the URL of the probe is one that http.NewRequest accepts.
unfoldable pub check_health : Probe → Backend → Backend
check_health probe b = probed (probe b.client) b

unfoldable pub probe_unhealthy_backends : ℕ → Probe → Balancer → Balancer
probe_unhealthy_backends now probe lb = record lb {
  backends = map (λ b. if available_at now b then b else check_health probe b) lb.backends;
}
