-- ===== src/Circuit.antt =====
-- middleware/resilience.go: the circuit breakers of CircuitBreak, one for each host. Requests come one
-- after another; the state of a breaker is written back to the registry after its call of Do.
pub mod Isolation
pub mod Answers
mod Tests
use aoni.Base.{
  ℕ, ◌≡◌, ◌≢◌, Bool, true, false, not, ◌||◌, List, [], ◌∷◌, ◌++◌, Option, none, some, leb,
  if◌then◌else◌,
}
use aoni.Base.Int.{ℤ, pos, is_positive}
use aoni.Base.Text.{Text, bytes, is_empty, has_prefix}

-- circuit_open is ErrCircuitOpen, and open_for the error that names the host.
pub data Error : Type 0 where
  circuit_open : Error
  open_for : Text → Error
  other : ℕ → Error

-- What a client returns; of a response its number and its status are kept.
pub record Response : Type 0 where
  pub id : ℕ
  pub status_code : ℕ

abbrev pub Answer : Type 0
Answer = Option Response × Option Error

-- The packages sync/breaker and generic of github.com/lemon4ksan/foundation, net/url, net and
-- float64. Do of a breaker is two steps: enter gives the error when it does not call its function,
-- and leave what it returns after the function has.
pub record Library : Type 1 where
  pub Float : Type 0
  pub half : Float
  pub is_share : Float → Bool
  pub Breaker : Type 0
  pub new_breaker : Float → ℤ → ℤ → ℤ → Breaker
  pub enter : ℕ → Breaker → Option Error × Breaker
  pub leave : ℕ → Option Error → Breaker → Option Error × Breaker
  pub Registry : Type 0
  pub no_breakers : Registry
  pub load : Text → Registry → Option Breaker
  pub put : Text → Breaker → Registry → Registry
  pub is_err_open : Error → Bool
  pub wraps_circuit_open : ℕ → Bool
  pub text : ℕ → Text
  pub url_host : Text → Option Text
  pub split_host_port : Text → Option Text

-- What is stored for a host is loaded for it, and for no other host.
pub record IsMap (lib : Library) : Type 0 where
  pub load-put :
      (h : Text) (b : lib.Breaker) (r : lib.Registry) → lib.load h (lib.put h b r) ≡ some b
  pub load-put_ne :
      (g h : Text) (b : lib.Breaker) (r : lib.Registry)
      → g ≢ h
      → lib.load g (lib.put h b r) ≡ lib.load g r

-- Do fails with ErrOpen, which ErrCircuitOpen is not, or returns the error of its function.
pub record IsBreaker (lib : Library) : Type 0 where
  pub enter-open :
      (now : ℕ) (b : lib.Breaker) (e : Error)
      → (lib.enter now b).0 ≡ some e
      → lib.is_err_open e ≡ true
  pub distinct : lib.is_err_open circuit_open ≡ false
  pub leave-same : (now : ℕ) (err : Option Error) (b : lib.Breaker) → (lib.leave now err b).0 ≡ err

-- strings.Contains
abbrev pub contains_text : Text → Text → Bool
contains_text [] part = has_prefix [] part
contains_text (c ∷ s) part = has_prefix (c ∷ s) part || contains_text s part

abbrev pub default_condition : Answer → Bool
default_condition (resp, some e) = true
default_condition (some r, none) = leb 500 r.status_code
default_condition (none, none) = false

-- isFailure may be nil.
abbrev pub is_failure : Option (Answer → Bool) → Answer → Bool
is_failure condition a = elim condition [ none ↦ default_condition a | some f ↦ f a ]

-- What the function that Do calls returns.
unfoldable pub verdict : Option (Answer → Bool) → Answer → Option Error
verdict condition a =
    if is_failure condition a then elim a.1 [ none ↦ some circuit_open | some e ↦ some e ] else none

-- A request, with the times of its call of Do and what the wrapped client answers when it is called.
pub record Call : Type 0 where
  pub url : Text
  pub entered_at : ℕ
  pub left_at : ℕ
  pub answer : Answer

-- What CircuitBreak returns for a request to the host, and whether the wrapped client was called.
pub record Result : Type 0 where
  pub host : Text
  pub answer : Answer
  pub called : Bool

module _ (lib : Library) where
  pub record CircuitBreakerConfig : Type 0 where
    pub failure_threshold : lib.Float
    pub min_requests : ℤ
    pub cooldown : ℤ
    pub window : ℤ

  pub record CircuitBreaker : Type 0 where
    pub cfg : CircuitBreakerConfig
    pub breakers : lib.Registry

  abbrev pub positive_or : ℤ → ℤ → ℤ
  positive_or n d = if is_positive n then n else d

  unfoldable pub new_circuit_breaker : CircuitBreakerConfig → CircuitBreaker
  new_circuit_breaker cfg = record {
    cfg = record {
      failure_threshold =
          if lib.is_share cfg.failure_threshold then cfg.failure_threshold else lib.half;
      min_requests = positive_or cfg.min_requests (pos 5);
      cooldown = positive_or cfg.cooldown (pos 5000000000);
      window = positive_or cfg.window (pos 10000000000);
    };
    breakers = lib.no_breakers;
  }

  abbrev pub breaker_of : CircuitBreakerConfig → lib.Breaker
  breaker_of cfg = lib.new_breaker cfg.failure_threshold cfg.min_requests cfg.cooldown cfg.window

  -- getBreaker, which makes the breaker of a host at its first request.
  abbrev pub load_or_make :
      Text → CircuitBreaker → Option lib.Breaker → lib.Breaker × CircuitBreaker
  load_or_make host cb (some b) = (b, cb)
  load_or_make host cb none =
      let b = breaker_of cb.cfg in (b, record cb { breakers = lib.put host b cb.breakers })

  unfoldable pub get_breaker : Text → CircuitBreaker → lib.Breaker × CircuitBreaker
  get_breaker host cb = load_or_make host cb (lib.load host cb.breakers)

  unfoldable pub parse_host_from_url : Text → Text
  parse_host_from_url raw = elim (lib.url_host raw) [
    | none ↦ raw
    | some host ↦
        if is_empty host
        then raw
        else elim (lib.split_host_port host) [ none ↦ host | some name ↦ name ]
  ]

  abbrev pub message : Error → Text
  message circuit_open = bytes "aoni: circuit breaker open for target host"
  message (open_for host) = bytes "aoni: circuit breaker open for host " ++ host
  message (other n) = lib.text n

  unfoldable pub is_open : Error → Bool
  is_open e = lib.is_err_open e || contains_text (message e) (bytes "circuit breaker is open")

  -- errors.Is with ErrCircuitOpen
  abbrev pub is_circuit_open : Error → Bool
  is_circuit_open circuit_open = true
  is_circuit_open (open_for host) = false
  is_circuit_open (other n) = lib.wraps_circuit_open n

  -- The result for the response and the error of Do.
  unfoldable pub conclude : Text → Option Response → Option Error → Answer
  conclude host resp none = (resp, none)
  conclude host resp (some e) =
      if is_open e
      then (resp, some (open_for host))
      else if is_circuit_open e
      then (resp, none)
      else (resp, some e)

  abbrev pub write_back : Text → lib.Breaker → CircuitBreaker → CircuitBreaker
  write_back host b cb = record cb { breakers = lib.put host b cb.breakers }

  -- A request with the breaker of its host, which Do has entered, and with the error for which Do does
  -- not call the client: the result, and the breaker after it.
  abbrev pub admitted :
      Option (Answer → Bool) → Text → Call → lib.Breaker → Option Error → Result × lib.Breaker
  admitted condition host call b (some e) =
      (record { host = host; answer = conclude host none (some e); called = false }, b)
  admitted condition host call b none =
      let left = lib.leave call.left_at (verdict condition call.answer) b in
      (record { host = host; answer = conclude host call.answer.0 left.0; called = true }, left.1)

  unfoldable pub guarded : Option (Answer → Bool) → Text → Call → lib.Breaker → Result × lib.Breaker
  guarded condition host call b =
      let entered = lib.enter call.entered_at b in admitted condition host call entered.1 entered.0

  -- The handler of CircuitBreak.
  unfoldable pub circuit_break :
      Option (Answer → Bool) → Call → CircuitBreaker → Result × CircuitBreaker
  circuit_break condition call cb =
      let host = parse_host_from_url call.url in
      let known = get_breaker host cb in
      let out = guarded condition host call known.0 in (out.0, write_back host out.1 known.1)

  unfoldable pub circuit_break_all :
      Option (Answer → Bool) → List Call → CircuitBreaker → List Result
  circuit_break_all condition [] cb = []
  circuit_break_all condition (call ∷ calls) cb =
      let out = circuit_break condition call cb in out.0 ∷ circuit_break_all condition calls out.1
