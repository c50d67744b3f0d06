-- ===== src/Balancer/Failover.antt =====
-- resiliency/loadbalancer/loadbalancer.go: what Do promises when some backend serves, and when none
-- is available.
use aoni.Base.{
  ℕ, zero, suc, ◌<◌, ◌≡◌, ◌≢◌, refl, sym, ap, ◌∙◌, inl, inr, true, false, List, [], ◌∷◌, Option,
  none, some, arith, ◌==◌, length, get_elem?, set, Bool-cases, length-set, get_elem?-set_ne,
}
use aoni.Base.Text.{Text}
use aoni.Balancer.Pool.{
  Error, no_healthy_backends, Request, Response, Backend, Balancer, Net, available_at,
}
use aoni.Balancer.Attempts.{
  conclude, contact, is_fault, judge, to_backend, try_backend, Outcome, keep_error, try_each,
  format_balance_error,
}
use aoni.Balancer.Order.{build_backend_indices}
use aoni.Balancer.Order.Occurs.{Occurs, build_backend_indices-Occurs, get_elem?-lt}
use aoni.Balancer.Order.InRange.{AllBelow, build_backend_indices-AllBelow}
use aoni.Balancer.Call.{do_request}

pub at_index :
    (bs : List Backend) (i : ℕ) → i < length bs → (b : Backend) × (get_elem? bs i ≡ some b)
at_index [] i h = absurd (omega arith)
at_index (b ∷ bs) zero h = (b, refl)
at_index (b ∷ bs) (suc i) h = at_index bs i (omega arith)

set_same : (bs : List Backend) (i : ℕ) (b : Backend) → get_elem? bs i ≡ some b → set bs i b ≡ bs
set_same [] i b h = refl
set_same (c ∷ bs) zero b h = ground arith
set_same (c ∷ bs) (suc i) b h = ap (◌∷◌ c) (set_same bs i b h)

judge-answered :
    (now : ℕ) (b : Backend) (r : Request) (resp : Option Response) (error : Option Error)
    → (judge now b r resp error).answered ≡ true
    → is_fault (judge now b r resp error).resp (judge now b r resp error).error ≡ false
unfolding judge
judge-answered now b r resp error h = elim (Bool-cases (is_fault resp error)) [
  | inl q ↦ ground arith
  | inr q ↦ rw (q, q) refl
]

contact-answered :
    (net : Net) (k : ℕ) (req : Request) (b : Backend) (target : Option (Text × Text))
    → (contact net k req b target).answered ≡ true
    → is_fault (contact net k req b target).resp (contact net k req b target).error ≡ false
contact-answered net k req b none h = ground arith
contact-answered net k req b (some target) h =
    let r = net.reply k b.client (to_backend req target) in
    judge-answered (net.recorded_at k) b (to_backend req target) r.0 r.1 h

-- An attempt that answers does not return a fault.
try_backend-answered :
    (net : Net) (k : ℕ) (req : Request) (b : Backend)
    → (try_backend net k req b).answered ≡ true
    → is_fault (try_backend net k req b).resp (try_backend net k req b).error ≡ false
unfolding try_backend
try_backend-answered net k req b h = elim (Bool-cases (available_at (net.checked_at k) b)) [
  | inl q ↦
      let seen : (contact net k req b b.parsed_url).answered ≡ true = ground arith in
      rw q (contact-answered net k req b b.parsed_url seen)
  | inr q ↦ ground arith
]

-- The replies of a backend that is available, has a URL and does not fail.
pub record Serves (net : Net) (req : Request) (b : Backend) : Type 0 where
  pub available : (k : ℕ) → available_at (net.checked_at k) b ≡ true
  pub target : Text × Text
  pub has_url : b.parsed_url ≡ some target
  pub no_fault :
      (k : ℕ)
      → is_fault
          (net.reply k b.client (to_backend req target)).0
          (net.reply k b.client (to_backend req target)).1
        ≡ false

try_backend-Serves :
    (net : Net) (k : ℕ) (req : Request) (b : Backend)
    → Serves net req b
    → (try_backend net k req b).answered ≡ true
unfolding try_backend judge
try_backend-Serves net k req b s = rw (s.available k, s.has_url, s.no_fault k) refl

try_each-cons :
    (net : Net) (req : Request) (k i : ℕ) (order : List ℕ) (last : Option Error) (bs : List Backend)
    (c : Backend)
    → get_elem? bs i ≡ some c
    → try_each net k (i ∷ order) last req bs
      ≡ conclude i (try_backend net k req c) bs (
          try_each net
            (suc k)
            order
            (keep_error (try_backend net k req c).error last)
            req
            (set bs i (try_backend net k req c).backend))
unfolding try_each
try_each-cons net req k i order last bs c e = rw (e, try_each) refl

abbrev pub IsServed : Outcome → Type 0
IsServed o = (o.panicked ≡ false) × (is_fault o.resp o.error ≡ false)

tail-Occurs : (i j : ℕ) (order : List ℕ) → i ≢ j → Occurs j (i ∷ order) → Occurs j order
tail-Occurs i j order h (zero, e) = ground arith
tail-Occurs i j order h (suc m, e) = (m, e)

try_each-Serves :
    (net : Net) (req : Request) (j : ℕ) (b : Backend) (k : ℕ) (order : List ℕ) (last : Option Error)
    (bs : List Backend)
    → Serves net req b
    → AllBelow (length bs) order
    → Occurs j order
    → get_elem? bs j ≡ some b
    → IsServed (try_each net k order last req bs)
try_each-Serves net req j b k [] last bs s below (m, h) e = ground arith
try_each-Serves net req j b k (i ∷ order) last bs s (hi, below) (m, h) e =
    let (c, ec) = at_index bs i hi in
    let t = try_backend net k req c in
    rw (try_each-cons net req k i order last bs c ec) (elim (Bool-cases t.answered) [
      | inl q ↦ rw q (refl, try_backend-answered net k req c q)
      | inr q ↦
          let moved : i ≢ j = λ same.
            let cb : c ≡ b =
              ap (λ o. elim o [ none ↦ c | some x ↦ x ]) (sym ec ∙ ap (get_elem? bs) same ∙ e) in
            let agree = ap (λ x. (try_backend net k req x).answered) cb in
            let yes = try_backend-Serves net k req b s in ground arith in
          rw q (
            try_each-Serves net req j b (suc k) order (keep_error t.error last) (set bs i t.backend)
              s (rw (length-set bs i t.backend) below) (tail-Occurs i j order moved (m, h))
              (get_elem?-set_ne bs t.backend moved ∙ e))
    ])

-- When one backend of the pool is available at each attempt, has a URL, and never replies with a
-- fault, Do serves the request whatever the strategy and whatever the other backends do: it does not
-- panic, and what it returns is no fault, so its error can only be a cancellation, and a response
-- without an error does not have the status 502, 503 or 504.
pub do_request-Serves :
    (net : Net) (intn : ℕ → ℕ) (req : Request) (lb : Balancer) (j : ℕ) (b : Backend)
    → get_elem? lb.backends j ≡ some b
    → Serves net req b
    → IsServed (do_request net intn req lb).0
unfolding do_request
do_request-Serves net intn req lb j b e s =
    let h = get_elem?-lt lb.backends j b e in
    let some_backend : (length lb.backends == 0) ≡ false = ground arith in
    let (all, occurs) = build_backend_indices-Occurs intn lb j h in
    rw some_backend (
      try_each-Serves net req j b 0 (build_backend_indices intn lb) none lb.backends s
        (build_backend_indices-AllBelow intn lb (omega arith)) occurs e)

try_each-unavailable :
    (net : Net) (req : Request) (k : ℕ) (order : List ℕ) (bs : List Backend)
    → ((m i : ℕ) (b : Backend)
        → get_elem? bs i ≡ some b
        → available_at (net.checked_at m) b ≡ false)
    → AllBelow (length bs) order
    → try_each net k order none req bs ≡ record {
      resp = none;
      error = some no_healthy_backends;
      backends = bs;
      sent = [];
      panicked = false;
    }
unfolding try_each try_backend format_balance_error
try_each-unavailable net req k [] bs h below = refl
try_each-unavailable net req k (i ∷ order) bs h (hi, below) =
    let (c, ec) = at_index bs i hi in
    rw (try_each-cons net req k i order none bs c ec, h k i c ec, set_same bs i c ec)
      (rw (try_each-unavailable net req (suc k) order bs h below) refl)

-- When no backend is available at any attempt, or the pool is empty, Do sends nothing, changes no
-- backend and returns ErrNoHealthyBackends.
pub do_request-unavailable :
    (net : Net) (intn : ℕ → ℕ) (req : Request) (lb : Balancer)
    → ((m i : ℕ) (b : Backend)
        → get_elem? lb.backends i ≡ some b
        → available_at (net.checked_at m) b ≡ false)
    → (do_request net intn req lb).0 ≡ record {
      resp = none;
      error = some no_healthy_backends;
      backends = lb.backends;
      sent = [];
      panicked = false;
    }
unfolding do_request
do_request-unavailable net intn req lb h = elim (Bool-cases (length lb.backends == 0)) [
  | inl q ↦ rw q refl
  | inr q ↦
      let below = build_backend_indices-AllBelow intn lb (ground arith) in
      rw q (try_each-unavailable net req 0 (build_backend_indices intn lb) lb.backends h below)
]
