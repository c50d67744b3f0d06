-- ===== src/Retry/Recovery.antt =====
-- middleware/retry.go: the loop gets through to the first answer that is not to be retried.
use aoni.Base.{
  ℕ, zero, suc, ◌+◌, ◌-◌, ◌≤◌, ◌<◌, ◌≡◌, refl, sym, ap, ◌∙◌, Bool, true, false, List, [], ◌∷◌,
  Option, none, some, arith, ltb,
}
use aoni.Retry.{
  Error, Response, Request, RetryOptions, World, Event, calls, notifies, waits,
  calculate_retry_sleep, allow_retry_for_method, close, proceeds, gate, is_final, attempts, retry,
  active_settings, active_world,
}
use aoni.Retry.Attempts.{
  limit, active_settings-limit, active_settings-kept, count_calls, count_calls-append,
  count_calls-close,
}

-- Nothing but the calls themselves goes wrong up to the attempt with the number top: the context does
-- not end, the body can be sent again, and after each answer before, a Retry-After in it is not beyond
-- the limit and the request may be repeated.
pub record IsCalm (w : World) (opts : RetryOptions) (req : Request) (top : ℕ) : Type 0 where
  pub goes_on : (k : ℕ) → 0 < k → k ≤ top → w.done k ≡ none
  pub rewinds : (k : ℕ) → 1 < k → k ≤ top → w.rewind k ≡ none
  pub sleeps :
      (k : ℕ)
      → 0 < k
      → k < top
      → (d : ℕ) × (calculate_retry_sleep w opts (suc k) (w.next k).0 ≡ some d)
  pub wakes : (k d : ℕ) → 1 < k → k ≤ top → w.wait k d ≡ none
  pub allowed :
      (k : ℕ)
      → 0 < k
      → k < top
      → allow_retry_for_method w req opts.allowed_methods (w.next k).0 ≡ true

-- Does the answer of that call end the loop?
abbrev pub final_at : World → ℕ → Bool
final_at w i = is_final w (w.next i).0 (w.next i).1

module _ (w : World) (req : Request) (opts : RetryOptions) where
  -- The attempt with the number k calls the client, after events that call nothing.
  IsReady : ℕ → Option Response → Type 0
  IsReady k last = (es : List Event) × (gate w req opts k last ≡ proceeds es) × (count_calls es ≡ 0)

  IsReady-first : w.done 1 ≡ none → IsReady 1 none
  unfolding IsReady gate count_calls
  IsReady-first h = ([], rw h refl, refl)

  IsReady-IsCalm :
      (top k : ℕ) → IsCalm w opts req top → 0 < k → k < top → IsReady (suc k) (w.next k).0
  unfolding IsReady gate count_calls
  IsReady-IsCalm top k c h lt =
      let late : ltb 1 (suc k) ≡ true = ground arith in
      let (d, e) = c.sleeps k h lt in
      let last = (w.next k).0 in
      (
        notifies (suc k - 1) d ∷ waits d ∷ close last,
        rw
            (
              c.goes_on (suc k) (omega arith) (omega arith),
              late,
              c.rewinds (suc k) (omega arith) (omega arith),
              c.allowed k h lt,
              e,
              c.wakes (suc k) d (omega arith) (omega arith),
            )
            refl,
        count_calls-close last,
      )

  attempts-IsReady :
      (m n k : ℕ) (last : Option Response) (error : Option Error)
      → IsReady k last
      → ((i : ℕ) → k ≤ i → i < k + m → IsReady (suc i) (w.next i).0)
      → m < n
      → ((i : ℕ) → i < m → final_at w (k + i) ≡ false)
      → final_at w (k + m) ≡ true
      → ((attempts w req opts n k last error).resp ≡ (w.next (k + m)).0)
        × ((attempts w req opts n k last error).error ≡ (w.next (k + m)).1)
        × (count_calls (attempts w req opts n k last error).events ≡ suc m)
  unfolding IsReady attempts count_calls
  attempts-IsReady m zero k last error ready later h bad good = absurd (omega arith)
  attempts-IsReady zero (suc n) k last error (es, g, quiet) later h bad good =
      let now : k + 0 ≡ k = omega arith in
      let good_now = ap (final_at w) (sym now) ∙ good in
      rw (now, g, good_now) (refl, refl, omega (arith, count_calls-append es (calls k ∷ [])))
  attempts-IsReady (suc m) (suc n) k last error (es, g, quiet) later h bad good =
      let now : k + 0 ≡ k = omega arith in
      let bad_now = ap (final_at w) (sym now) ∙ bad 0 (omega arith) in
      let end : suc k + m ≡ k + suc m = omega arith in
      let rest = attempts w req opts n (suc k) (w.next k).0 (w.next k).1 in
      let (r, e, count) =
        attempts-IsReady m n (suc k) (w.next k).0 (w.next k).1 (later k (omega arith) (omega arith))
          (λ i low high. later i (omega arith) (omega arith)) (omega arith)
          (λ i hi.
            let shift : suc k + i ≡ k + suc i = omega arith in
            ap (final_at w) shift ∙ bad (suc i) (omega arith))
          (ap (final_at w) end ∙ good) in
      rw (g, bad_now)
        (
          r ∙ ap (λ i. (w.next i).0) end,
          e ∙ ap (λ i. (w.next i).1) end,
          omega (arith, count_calls-append es (calls k ∷ rest.events)),
        )

plain_request :
    (w : World) (opts : RetryOptions) (req : Request)
    → opts.auto_idempotency_key ≡ false
    → retry w opts req
      ≡ attempts
          (active_world w opts req)
          req
          (active_settings w opts req).0
          (active_settings w opts req).0.max_attempts
          1
          none
          none
unfolding retry
plain_request w opts req auto =
    let kept = (active_settings-kept w opts req).1 ∙ auto in rw kept refl

-- With the options and the condition that the request's own policy makes of those of the middleware:
-- when no key is added, the context does not end and the body can be sent again up to attempt m + 1,
-- after each of the first m answers the request may be repeated and a Retry-After is not beyond the
-- limit, the first m answers are to be retried and the next one is not, and more than m attempts are
-- allowed, then the result is the next answer, and m + 1 calls are made.
pub retry-IsCalm :
    (w : World) (opts : RetryOptions) (req : Request) (m : ℕ)
    → IsCalm (active_world w opts req) (active_settings w opts req).0 req (suc m)
    → opts.auto_idempotency_key ≡ false
    → m < limit opts req
    → ((i : ℕ) → i < m → final_at (active_world w opts req) (1 + i) ≡ false)
    → final_at (active_world w opts req) (1 + m) ≡ true
    → ((retry w opts req).resp ≡ (w.next (1 + m)).0)
      × ((retry w opts req).error ≡ (w.next (1 + m)).1)
      × (count_calls (retry w opts req).events ≡ suc m)
retry-IsCalm w opts req m c auto h bad good =
    let world = active_world w opts req in
    let o = (active_settings w opts req).0 in
    rw (plain_request w opts req auto) (
      attempts-IsReady world req o m o.max_attempts 1 none none
        (IsReady-first world req o (c.goes_on 1 (omega arith) (omega arith)))
        (λ i low high. IsReady-IsCalm world req o (suc m) i c (omega arith) (omega arith))
        (omega (arith, active_settings-limit w opts req, h)) bad good)
