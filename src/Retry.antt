-- ===== src/Retry.antt =====
-- middleware/retry.go, with parseRetryAfter of middleware/resilience.go and IsIdempotentMethod of
-- internal/requestutil/requestutil.go: the loop of the retry middleware. What a step of it meets
-- outside is a function of the number of the attempt; what it does there is recorded as events.
pub mod Attempts
pub mod Recovery
mod Tests
use aoni.Base.{
  ℕ, zero, suc, ◌+◌, ◌-◌, ◌*◌, ◌%◌, ◌^◌, ◌==◌, Bool, true, false, not, ◌&&◌, ◌||◌, List, [], ◌∷◌,
  ◌++◌, Option, none, some, ltb, leb, if◌then◌else◌, any,
}
use aoni.Base.Int.{ℤ, pos, negsuc, pos_part, is_positive}
use aoni.Base.Text.{Text, bytes, text_eq, is_empty}

-- cause is an error of what the middleware calls.
pub data Error : Type 0 where
  cause : ℕ → Error
  max_retries_exceeded : Error → Error
  retry_after_exceeded : Error

pub record Response : Type 0 where
  pub status_code : ℕ
  pub retry_after : Text

abbrev pub Condition : Type 0
Condition = Option (Option Response → Option Error → Bool)

-- RetryPolicy of the request's configuration.
pub record RetryPolicy : Type 0 where
  pub condition : Condition
  pub backoff : ℤ
  pub max_attempts : ℤ

-- has_key and has_request_id say whether the headers Idempotency-Key and X-Request-ID are not
-- empty, allows_hedging is AllowNonReadOnlyHedging of the request's configuration.
pub record Request : Type 0 where
  pub method : Text
  pub has_key : Bool
  pub has_request_id : Bool
  pub allows_hedging : Bool
  pub policy : Option RetryPolicy

-- max_attempts and max_retries are uint32. At 2 ^ 32 - 1 attempts, which the model leaves out, the
-- counter of the loop wraps and the loop has no end.
-- max_retry_after is 0 for a limit that is not positive. OnRetry is set; its calls are events.
pub record RetryOptions : Type 0 where
  pub max_attempts : ℕ
  pub max_retries : ℕ
  pub max_retry_after : ℕ
  pub initial_backoff : ℤ
  pub backoff : ℤ
  pub auto_idempotency_key : Bool
  pub allowed_methods : List Text

-- What strconv.ParseInt returns for a 64-bit decimal.
pub data ParseInt : Type 0 where
  parsed : ℤ → ParseInt
  out_of_range syntax : ParseInt

-- backoff k is what the generator gives before attempt k that createBackoffGenerator makes of the two
-- backoffs, until is http.ParseTime with time.Until of the result, none when it is no date, and
-- equal_fold is strings.EqualFold. condition is the argument of Retry.
pub record World : Type 0 where
  pub done : ℕ → Option Error
  pub rewind : ℕ → Option Error
  pub next : ℕ → Option Response × Option Error
  pub backoff : ℤ → ℤ → ℕ → ℕ
  pub wait : ℕ → ℕ → Option Error
  pub is_fatal : Error → Bool
  pub condition : Condition
  pub equal_fold : Text → Text → Bool
  pub parse_int : Text → ParseInt
  pub until : Text → Option ℤ

pub data Event : Type 0 where
  calls : ℕ → Event
  notifies : ℕ → ℕ → Event
  waits : ℕ → Event
  closes : Event

abbrev is_zero : ℤ → Bool
is_zero (pos n) = n == 0
is_zero (negsuc n) = false

-- The beginning of Retry.
unfoldable pub normalize_options : RetryOptions → RetryOptions
normalize_options opts =
    let given =
      if opts.max_attempts == 0 && ltb 0 opts.max_retries
      then (opts.max_retries + 1) % 2 ^ 32
      else opts.max_attempts in
    record opts {
      max_attempts = if ltb given 1 then 1 else given;
      initial_backoff =
          if is_zero opts.initial_backoff && is_positive opts.backoff
          then opts.backoff
          else opts.initial_backoff;
    }

abbrev pub attempts_of : RetryPolicy → ℕ → ℕ
attempts_of p given = if is_positive p.max_attempts then pos_part p.max_attempts % 2 ^ 32 else given

abbrev pub condition_of : Condition → Condition → Condition
condition_of none given = given
condition_of (some f) given = some f

abbrev pub overridden : Option RetryPolicy → RetryOptions → Condition → RetryOptions × Condition
overridden none opts condition = (opts, condition)
overridden (some p) opts condition = (
  record opts {
    max_attempts = attempts_of p opts.max_attempts;
    initial_backoff = if is_positive p.backoff then p.backoff else opts.initial_backoff;
  },
  condition_of p.condition condition,
)

-- The number of attempts of a policy is an int, of which the low 32 bits count.
unfoldable pub resolve_retry_overrides :
    Request → RetryOptions → Condition → RetryOptions × Condition
resolve_retry_overrides req opts condition = overridden req.policy opts condition

abbrev pub max_duration : ℕ
max_duration = 2 ^ 63 - 1

abbrev nanoseconds : ℕ → ℕ
nanoseconds s = if ltb 9223372036 s then max_duration else s * 1000000000

abbrev http_date : Option ℤ → Option ℕ
http_date none = none
http_date (some d) = some (pos_part d)

unfoldable pub parse_retry_after : World → Option Response → Option ℕ
parse_retry_after w none = none
parse_retry_after w (some r) =
    if is_empty r.retry_after then none else elim (w.parse_int r.retry_after) [
      | parsed n ↦ elim n [
        | pos s ↦ some (nanoseconds s)
        | negsuc s ↦ http_date (w.until r.retry_after)
      ]
      | out_of_range ↦ some max_duration
      | syntax ↦ http_date (w.until r.retry_after)
    ]

-- none is a Retry-After beyond the limit; k is the number of the attempt to come.
abbrev sleep_for : ℕ → ℕ → Option ℕ → Option ℕ
sleep_for backoff limit none = some backoff
sleep_for backoff limit (some d) = if ltb 0 limit && ltb limit d then none else some d

unfoldable pub calculate_retry_sleep : World → RetryOptions → ℕ → Option Response → Option ℕ
calculate_retry_sleep w opts k resp =
    sleep_for (w.backoff opts.initial_backoff opts.backoff k) opts.max_retry_after
      (parse_retry_after w resp)

unfoldable pub is_idempotent_method : Text → Bool
is_idempotent_method m = any (text_eq m) (
    bytes "GET"
    ∷ bytes "HEAD"
    ∷ bytes "PUT"
    ∷ bytes "DELETE"
    ∷ bytes "OPTIONS"
    ∷ bytes "TRACE"
    ∷ [])

abbrev invites : Option Response → Bool
invites none = false
invites (some r) = r.status_code == 429 || r.status_code == 425

abbrev is_listed : World → Text → List Text → Bool
is_listed w method methods = any (λ m. w.equal_fold m method) methods

unfoldable pub allow_retry_for_method : World → Request → List Text → Option Response → Bool
allow_retry_for_method w req (m ∷ methods) resp = is_listed w req.method (m ∷ methods)
allow_retry_for_method w req [] resp =
    is_idempotent_method req.method
    || (req.has_key || (req.has_request_id || (invites resp || req.allows_hedging)))

unfoldable pub ensure_idempotency_key : Request → Request
ensure_idempotency_key req =
    if not req.has_key && not req.has_request_id then record req { has_key = true } else req

abbrev pub close : Option Response → List Event
close none = []
close (some r) = closes ∷ []

-- What stands before the call of an attempt: the loop returns, breaks or goes on.
pub data Gate : Type 0 where
  returns : Option Response → Option Error → List Event → Gate
  breaks : Gate
  proceeds : List Event → Gate

abbrev pub after_wait : ℕ → ℕ → Option Response → Option Error → Gate
after_wait k d last (some e) = returns none (some e) (notifies (k - 1) d ∷ waits d ∷ close last)
after_wait k d last none = proceeds (notifies (k - 1) d ∷ waits d ∷ close last)

abbrev pub after_sleep : World → ℕ → Option Response → Option ℕ → Gate
after_sleep w k last none = returns last (some retry_after_exceeded) []
after_sleep w k last (some d) = after_wait k d last (w.wait k d)

abbrev pub after_rewind : World → Request → RetryOptions → ℕ → Option Response → Option Error → Gate
after_rewind w req opts k last (some e) = returns last (some e) (close last)
after_rewind w req opts k last none =
    if not (allow_retry_for_method w req opts.allowed_methods last)
    then breaks
    else after_sleep w k last (calculate_retry_sleep w opts k last)

abbrev after_done : World → Request → RetryOptions → ℕ → Option Response → Option Error → Gate
after_done w req opts k last (some e) = returns none (some e) []
after_done w req opts k last none =
    if ltb 1 k then after_rewind w req opts k last (w.rewind k) else proceeds []

unfoldable pub gate : World → Request → RetryOptions → ℕ → Option Response → Gate
gate w req opts k last = after_done w req opts k last (w.done k)

pub record Report : Type 0 where
  pub resp : Option Response
  pub error : Option Error
  pub events : List Event

abbrev pub exhausted : Option Response → Option Error → Report
exhausted last none = record { resp = last; error = none; events = [] }
exhausted last (some e) = record { resp = last; error = some (max_retries_exceeded e); events = [] }

abbrev is_fatal_error : World → Option Error → Bool
is_fatal_error w none = false
is_fatal_error w (some e) = w.is_fatal e

abbrev asks_again : World → Option Response → Option Error → Bool
asks_again w resp error = elim w.condition [ none ↦ false | some cond ↦ cond resp error ]

abbrev pub is_final : World → Option Response → Option Error → Bool
is_final w resp error = is_fatal_error w error || not (asks_again w resp error)

abbrev pub after_call : World → ℕ → List Event → Report → Report
after_call w k before rest =
    if is_final w (w.next k).0 (w.next k).1
    then record { resp = (w.next k).0; error = (w.next k).1; events = before ++ (calls k ∷ []) }
    else record rest { events = before ++ (calls k ∷ rest.events) }

abbrev pub at_gate : World → ℕ → Option Response → Option Error → Report → Gate → Report
at_gate w k last error rest (returns r e events) = record { resp = r; error = e; events = events }
at_gate w k last error rest breaks = exhausted last error
at_gate w k last error rest (proceeds events) = after_call w k events rest

-- The loop with the given number of attempts left; k is the number of the next one.
unfoldable pub attempts :
    World → Request → RetryOptions → ℕ → ℕ → Option Response → Option Error → Report
attempts w req opts zero k last error = exhausted last error
attempts w req opts (suc n) k last error =
    let rest = attempts w req opts n (suc k) (w.next k).0 (w.next k).1 in
    at_gate w k last error rest (gate w req opts k last)

-- What the middleware goes by for a request.
abbrev pub active_settings : World → RetryOptions → Request → RetryOptions × Condition
active_settings w given req = resolve_retry_overrides req (normalize_options given) w.condition

abbrev pub active_world : World → RetryOptions → Request → World
active_world w given req = record w { condition = (active_settings w given req).1 }

-- The handler of Retry.
unfoldable pub retry : World → RetryOptions → Request → Report
retry w given req =
    let opts = (active_settings w given req).0 in
    let sent = if opts.auto_idempotency_key then ensure_idempotency_key req else req in
    attempts (active_world w given req) sent opts opts.max_attempts 1 none none
