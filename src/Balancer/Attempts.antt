-- ===== src/Balancer/Attempts.antt =====
-- resiliency/loadbalancer/loadbalancer.go: tryBackend and the loop of Do over an order.
use aoni.Base.{
  ℕ, suc, ◌==◌, Bool, true, false, not, ◌||◌, List, [], ◌∷◌, Option, none, some, if◌then◌else◌,
  get_elem?, set,
}
use aoni.Base.Text.{Text}
use aoni.Health.{mark_failed, mark_success}
use aoni.Balancer.Pool.{
  Error, no_backends, no_healthy_backends, transport, invalid_backend_url, all_backends_failed,
  Request, Response, Backend, Net, available_at,
}

abbrev is_canceled : Error → Bool
is_canceled no_backends = false
is_canceled no_healthy_backends = false
is_canceled (transport n canceled) = canceled
is_canceled (invalid_backend_url u) = false
is_canceled (all_backends_failed e) = is_canceled e

unfoldable pub is_fault : Option Response → Option Error → Bool
is_fault resp (some e) = not (is_canceled e)
is_fault (some r) none = r.status_code == 502 || (r.status_code == 504 || r.status_code == 503)
is_fault none none = false

unfoldable pub format_balance_error : Option Error → Error
format_balance_error none = no_healthy_backends
format_balance_error (some e) = all_backends_failed e

-- What tryBackend returns, the backend as it leaves it and the request it sent.
pub record Attempt : Type 0 where
  pub resp : Option Response
  pub error : Option Error
  pub answered : Bool
  pub backend : Backend
  pub sent : Option Request

unfoldable pub judge : ℕ → Backend → Request → Option Response → Option Error → Attempt
judge now b sent resp error =
    if is_fault resp error
    then record {
      resp = none;
      error = error;
      answered = false;
      backend = record b { tracker = (mark_failed now b.tracker).0 };
      sent = some sent;
    }
    else record {
      resp = resp;
      error = error;
      answered = true;
      backend = record b { tracker = (mark_success b.tracker).0 };
      sent = some sent;
    }

abbrev pub to_backend : Request → Text × Text → Request
to_backend req (scheme, host) = record req { scheme = scheme; host = host }

abbrev pub contact : Net → ℕ → Request → Backend → Option (Text × Text) → Attempt
contact net k req b none = record {
  resp = none;
  error = some (invalid_backend_url b.url);
  answered = false;
  backend = record b { tracker = (mark_failed (net.recorded_at k) b.tracker).0 };
  sent = none;
}
contact net k req b (some target) =
    let r = net.reply k b.client (to_backend req target) in
    judge (net.recorded_at k) b (to_backend req target) r.0 r.1

unfoldable pub try_backend : Net → ℕ → Request → Backend → Attempt
try_backend net k req b =
    if not (available_at (net.checked_at k) b)
    then record { resp = none; error = none; answered = false; backend = b; sent = none }
    else contact net k req b b.parsed_url

-- The outcome of Do: what it returns, the backends as it leaves them, and the requests it sent with
-- the index of the backend each went to. An index out of range is a panic.
pub record Outcome : Type 0 where
  pub resp : Option Response
  pub error : Option Error
  pub backends : List Backend
  pub sent : List (ℕ × Request)
  pub panicked : Bool

abbrev pub keep_error : Option Error → Option Error → Option Error
keep_error none last = last
keep_error (some e) last = some e

abbrev pub logged : ℕ → Option Request → List (ℕ × Request) → List (ℕ × Request)
logged i none log = log
logged i (some r) log = (i, r) ∷ log

-- The loop goes on with rest unless the attempt at index i answered.
abbrev pub conclude : ℕ → Attempt → List Backend → Outcome → Outcome
conclude i t bs rest =
    if t.answered
    then record {
      resp = t.resp;
      error = t.error;
      backends = set bs i t.backend;
      sent = logged i t.sent [];
      panicked = false;
    }
    else record rest { sent = logged i t.sent rest.sent }

-- The loop over the order; k counts the attempts.
unfoldable pub try_each : Net → ℕ → List ℕ → Option Error → Request → List Backend → Outcome
try_each net k [] last req bs = record {
  resp = none;
  error = some (format_balance_error last);
  backends = bs;
  sent = [];
  panicked = false;
}
try_each net k (i ∷ order) last req bs = elim (get_elem? bs i) [
  | none ↦ record { resp = none; error = none; backends = bs; sent = []; panicked = true }
  | some b ↦
      let t = try_backend net k req b in
      let rest = try_each net (suc k) order (keep_error t.error last) req (set bs i t.backend) in
      conclude i t bs rest
]
