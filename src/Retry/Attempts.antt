-- ===== src/Retry/Attempts.antt =====
-- middleware/retry.go: how many calls the loop makes, and that it gets through to a good answer.
use aoni.Base.{
  ℕ, zero, suc, ◌+◌, ◌%◌, ◌^◌, ◌-◌, ◌≤◌, ◌<◌, ◌≡◌, refl, inl, inr, true, false, List, [], ◌∷◌, ◌++◌,
  Option, none, some, arith, ltb, if◌then◌else◌, Bool-cases, Option-cases,
}
use aoni.Base.Int.{pos_part, is_positive}
use aoni.Retry.{
  Error, Response, Request, RetryOptions, World, Event, calls, notifies, waits, closes,
  normalize_options, calculate_retry_sleep, is_idempotent_method, invites, allow_retry_for_method,
  ensure_idempotency_key, resolve_retry_overrides, active_settings, active_world, close, Gate,
  returns, breaks, proceeds, after_wait, after_sleep, after_rewind, after_done, gate, Report,
  exhausted, is_final, at_gate, attempts, retry,
}

-- The number of times the wrapped client is called.
unfoldable pub count_calls : List Event → ℕ
count_calls [] = 0
count_calls (calls k ∷ es) = suc (count_calls es)
count_calls (notifies k d ∷ es) = count_calls es
count_calls (waits d ∷ es) = count_calls es
count_calls (closes ∷ es) = count_calls es

pub count_calls-append :
    (xs ys : List Event) → count_calls (xs ++ ys) ≡ count_calls xs + count_calls ys
unfolding count_calls
count_calls-append [] ys = omega arith
count_calls-append (calls k ∷ xs) ys = omega (arith, count_calls-append xs ys)
count_calls-append (notifies k d ∷ xs) ys = count_calls-append xs ys
count_calls-append (waits d ∷ xs) ys = count_calls-append xs ys
count_calls-append (closes ∷ xs) ys = count_calls-append xs ys

abbrev IsQuiet : Gate → Type 0
IsQuiet (returns r e events) = count_calls events ≡ 0
IsQuiet breaks = Unit
IsQuiet (proceeds events) = count_calls events ≡ 0

pub count_calls-close : (last : Option Response) → count_calls (close last) ≡ 0
unfolding count_calls
count_calls-close none = refl
count_calls-close (some r) = refl

after_wait-IsQuiet :
    (k d : ℕ) (last : Option Response) (e : Option Error) → IsQuiet (after_wait k d last e)
unfolding count_calls
after_wait-IsQuiet k d last none = count_calls-close last
after_wait-IsQuiet k d last (some e) = count_calls-close last

after_sleep-IsQuiet :
    (w : World) (k : ℕ) (last : Option Response) (o : Option ℕ) → IsQuiet (after_sleep w k last o)
unfolding count_calls
after_sleep-IsQuiet w k last none = refl
after_sleep-IsQuiet w k last (some d) = after_wait-IsQuiet k d last (w.wait k d)

after_rewind-IsQuiet :
    (w : World) (req : Request) (opts : RetryOptions) (k : ℕ) (last : Option Response)
    (e : Option Error)
    → IsQuiet (after_rewind w req opts k last e)
after_rewind-IsQuiet w req opts k last (some e) = count_calls-close last
after_rewind-IsQuiet w req opts k last none =
    elim (Bool-cases (allow_retry_for_method w req opts.allowed_methods last)) [
      | inl q ↦ rw q (after_sleep-IsQuiet w k last (calculate_retry_sleep w opts k last))
      | inr q ↦ rw q tt
    ]

after_done-IsQuiet :
    (w : World) (req : Request) (opts : RetryOptions) (k : ℕ) (last : Option Response)
    (e : Option Error)
    → IsQuiet (after_done w req opts k last e)
unfolding count_calls
after_done-IsQuiet w req opts k last (some e) = refl
after_done-IsQuiet w req opts k last none = elim (Bool-cases (ltb 1 k)) [
  | inl q ↦ rw q (after_rewind-IsQuiet w req opts k last (w.rewind k))
  | inr q ↦ rw q refl
]

at_gate-le :
    (w : World) (k : ℕ) (last : Option Response) (error : Option Error) (rest : Report) (n : ℕ)
    (g : Gate)
    → IsQuiet g
    → count_calls rest.events ≤ n
    → count_calls (at_gate w k last error rest g).events ≤ suc n
unfolding count_calls
at_gate-le w k last error rest n (returns r e events) q h = omega arith
at_gate-le w k last none rest n breaks q h = omega arith
at_gate-le w k last (some e) rest n breaks q h = omega arith
at_gate-le w k last error rest n (proceeds events) q h =
    elim (Bool-cases (is_final w (w.next k).0 (w.next k).1)) [
      | inl f ↦ rw f (omega (arith, count_calls-append events (calls k ∷ [])))
      | inr f ↦ rw f (omega (arith, count_calls-append events (calls k ∷ rest.events)))
    ]

attempts-le :
    (w : World) (req : Request) (opts : RetryOptions) (n k : ℕ) (last : Option Response)
    (error : Option Error)
    → count_calls (attempts w req opts n k last error).events ≤ n
unfolding attempts gate count_calls
attempts-le w req opts zero k last none = omega arith
attempts-le w req opts zero k last (some e) = omega arith
attempts-le w req opts (suc n) k last error =
    at_gate-le w k last error _ n _ (after_done-IsQuiet w req opts k last (w.done k))
      (attempts-le w req opts n (suc k) (w.next k).0 (w.next k).1)

attempts-first :
    (w : World) (req : Request) (opts : RetryOptions) (n : ℕ)
    → 0 < n
    → w.done 1 ≡ none
    → 0 < count_calls (attempts w req opts n 1 none none).events
unfolding attempts gate count_calls
attempts-first w req opts zero h d = absurd (omega arith)
attempts-first w req opts (suc n) h d = elim (Bool-cases (is_final w (w.next 1).0 (w.next 1).1)) [
  | inl f ↦ rw (d, f) (omega arith)
  | inr f ↦ rw (d, f) (omega arith)
]

-- The number of calls that a request may take: that of its own policy, as the low 32 bits of it,
-- where it has a positive one, and otherwise that of the options.
abbrev pub limit : RetryOptions → Request → ℕ
limit opts req = elim req.policy [
  | none ↦ (normalize_options opts).max_attempts
  | some p ↦
      if is_positive p.max_attempts
      then pos_part p.max_attempts % 2 ^ 32
      else (normalize_options opts).max_attempts
]

pub active_settings-limit :
    (w : World) (opts : RetryOptions) (req : Request)
    → (active_settings w opts req).0.max_attempts ≡ limit opts req
unfolding resolve_retry_overrides
active_settings-limit w opts req = elim (Option-cases req.policy) [
  | inl e ↦ rw e refl
  | inr (p, e) ↦ rw e refl
]

-- When the context is not done at the start and the limit is neither 0 nor 2 ^ 32 - 1, where the
-- counter of the loop wraps, the client is called at least once and at most as often as the limit
-- says. The limit is the number of attempts of the request's own policy, as a uint32, where it has a
-- positive one, and otherwise that of the options after their defaults are filled in.
pub retry-bounds :
    (w : World) (opts : RetryOptions) (req : Request)
    → w.done 1 ≡ none
    → 0 < limit opts req
    → limit opts req < 2 ^ 32 - 1
    → (0 < count_calls (retry w opts req).events)
      × (count_calls (retry w opts req).events ≤ limit opts req)
unfolding retry
retry-bounds w opts req d h small =
    let o = (active_settings w opts req).0 in
    let world = active_world w opts req in
    let sent = if o.auto_idempotency_key then ensure_idempotency_key req else req in
    let same = active_settings-limit w opts req in
    (
      attempts-first world sent o o.max_attempts (omega (arith, same)) d,
      omega (arith, same, attempts-le world sent o o.max_attempts 1 none none),
    )

-- A request that must not be sent twice: nothing marks it as one that may.
pub record IsOneShot (w : World) (opts : RetryOptions) (req : Request) : Type 0 where
  pub unlisted : opts.allowed_methods ≡ []
  pub no_auto_key : opts.auto_idempotency_key ≡ false
  pub not_idempotent : is_idempotent_method req.method ≡ false
  pub no_key : req.has_key ≡ false
  pub no_request_id : req.has_request_id ≡ false
  pub no_hedging : req.allows_hedging ≡ false
  pub uninvited : (k : ℕ) → invites (w.next k).0 ≡ false

allow-IsOneShot :
    (w : World) (opts : RetryOptions) (req : Request) (k : ℕ)
    → IsOneShot w opts req
    → allow_retry_for_method w req opts.allowed_methods (w.next k).0 ≡ false
unfolding allow_retry_for_method
allow-IsOneShot w opts req k s =
    rw (s.unlisted, s.not_idempotent, s.no_key, s.no_request_id, s.uninvited k, s.no_hedging) refl

attempts-later :
    (w : World) (opts o : RetryOptions) (req : Request) (n k : ℕ) (error : Option Error)
    → o.allowed_methods ≡ opts.allowed_methods
    → IsOneShot w opts req
    → 0 < k
    → count_calls (attempts w req o n (suc k) (w.next k).0 error).events ≡ 0
unfolding attempts gate count_calls
attempts-later w opts o req zero k none same s h = refl
attempts-later w opts o req zero k (some e) same s h = refl
attempts-later w opts o req (suc n) k error same s h = elim (Option-cases (w.done (suc k))) [
  | inl d ↦ elim (Option-cases (w.rewind (suc k))) [
    | inl r ↦
        let late : ltb 1 (suc k) ≡ true = ground arith in
        rw (d, late, r, same, allow-IsOneShot w opts req k s) (quiet error)
    | inr (e, r) ↦
        let late : ltb 1 (suc k) ≡ true = ground arith in
        rw (d, late, r) (count_calls-close (w.next k).0)
  ]
  | inr (e, d) ↦ rw d refl
]
  where
    quiet : (o : Option Error) → count_calls (exhausted (w.next k).0 o).events ≡ 0
    quiet none = refl
    quiet (some e) = refl

attempts-once :
    (w : World) (opts o : RetryOptions) (req : Request) (n : ℕ)
    → o.allowed_methods ≡ opts.allowed_methods
    → IsOneShot w opts req
    → count_calls (attempts w req o n 1 none none).events ≤ 1
unfolding attempts gate count_calls
attempts-once w opts o req zero same s = omega arith
attempts-once w opts o req (suc n) same s =
    let later = attempts-later w opts o req n 1 (w.next 1).1 same s (omega arith) in
    elim (Option-cases (w.done 1)) [
      | inl d ↦ elim (Bool-cases (is_final w (w.next 1).0 (w.next 1).1)) [
        | inl f ↦ rw (d, f) (omega arith)
        | inr f ↦ rw (d, f) (omega arith)
      ]
      | inr (e, d) ↦ rw d (omega arith)
    ]

attempts-sent :
    (w : World) (opts o : RetryOptions) (req sent : Request)
    → sent ≡ req
    → o.allowed_methods ≡ opts.allowed_methods
    → IsOneShot w opts req
    → count_calls (attempts w sent o o.max_attempts 1 none none).events ≤ 1
attempts-sent w opts o req sent e same s = rw e (attempts-once w opts o req o.max_attempts same s)

pub active_settings-kept :
    (w : World) (opts : RetryOptions) (req : Request)
    → ((active_settings w opts req).0.allowed_methods ≡ opts.allowed_methods)
      × ((active_settings w opts req).0.auto_idempotency_key ≡ opts.auto_idempotency_key)
unfolding resolve_retry_overrides normalize_options
active_settings-kept w opts req = elim (Option-cases req.policy) [
  | inl e ↦ rw e (refl, refl)
  | inr (p, e) ↦ rw e (refl, refl)
]

-- A request whose method is not idempotent, that has no key or request identifier and may not be
-- hedged, is sent at most once, whatever the retry condition and the request's own policy say, when
-- the options list no methods, add no key and no answer is a 429 or a 425.
pub retry-IsOneShot :
    (w : World) (opts : RetryOptions) (req : Request)
    → IsOneShot w opts req
    → count_calls (retry w opts req).events ≤ 1
unfolding retry
retry-IsOneShot w opts req s =
    let o = (active_settings w opts req).0 in
    let (methods, auto) = active_settings-kept w opts req in
    attempts-sent (active_world w opts req) opts o req
      (if o.auto_idempotency_key then ensure_idempotency_key req else req)
      (rw (auto, s.no_auto_key) refl) methods
      (record {
        unlisted = s.unlisted;
        no_auto_key = s.no_auto_key;
        not_idempotent = s.not_idempotent;
        no_key = s.no_key;
        no_request_id = s.no_request_id;
        no_hedging = s.no_hedging;
        uninvited = s.uninvited;
      })
