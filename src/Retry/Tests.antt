-- ===== src/Retry/Tests.antt =====
-- Runs and instances for the retry loop.
use aoni.Base.{
  ℕ, zero, suc, ◌+◌, ◌^◌, ◌||◌, Bool, ◌≤◌, ◌<◌, ◌≡◌, refl, false, [], ◌∷◌, Option, none, some,
  arith, ◌==◌, if◌then◌else◌, is_some,
}
use aoni.Base.Int.{pos, pos_part}
use aoni.Base.Text.{bytes, text_eq}
use aoni.Retry.{
  invites, resolve_retry_overrides, active_settings, active_world, parsed, closes, Error, cause,
  Response, Request, RetryOptions, World, syntax, calls, notifies, waits, normalize_options,
  calculate_retry_sleep, parse_retry_after, allow_retry_for_method, is_idempotent_method, attempts,
  gate, retry,
}
use aoni.Retry.Attempts.{limit, count_calls, retry-bounds, IsOneShot, retry-IsOneShot}
use aoni.Retry.Recovery.{IsCalm, final_at, retry-IsCalm}

abbrev ok_response : Response
ok_response = record { status_code = 200; retry_after = [] }

abbrev busy : Response
busy = record { status_code = 503; retry_after = bytes "7" }

-- The first call fails, and the second one is answered with a Retry-After of seven seconds.
abbrev reply : ℕ → Option Response × Option Error
reply k =
    if k == 1
    then (none, some (cause 1))
    else if k == 2
    then (some busy, none)
    else (some ok_response, none)

abbrev asks : Option Response → Option Error → Bool
asks none e = is_some e
asks (some r) e = is_some e || r.status_code == 503

abbrev flaky : World
flaky = record {
  done = λ k. none;
  rewind = λ k. none;
  next = reply;
  backoff = λ initial b k. pos_part initial;
  wait = λ k d. none;
  is_fatal = λ e. false;
  condition = some asks;
  equal_fold = text_eq;
  parse_int = λ s. if text_eq s (bytes "7") then parsed (pos 7) else syntax;
  until = λ s. none;
}

abbrev opts : RetryOptions
opts = record {
  max_attempts = 0;
  max_retries = 4;
  max_retry_after = 10000000000;
  initial_backoff = pos 0;
  backoff = pos 5;
  auto_idempotency_key = false;
  allowed_methods = [];
}

abbrev get_request : Request
get_request = record {
  method = bytes "GET";
  has_key = false;
  has_request_id = false;
  allows_hedging = false;
  policy = none;
}

abbrev post_request : Request
post_request = record get_request { method = bytes "POST" }

third_time :
    (retry flaky opts get_request).events
    ≡ calls 1
      ∷ notifies 1 5
      ∷ waits 5
      ∷ calls 2
      ∷ notifies 2 7000000000
      ∷ waits 7000000000
      ∷ closes
      ∷ calls 3
      ∷ []
unfolding retry resolve_retry_overrides normalize_options attempts gate allow_retry_for_method
    is_idempotent_method calculate_retry_sleep parse_retry_after
third_time = refl

posted_once : (retry flaky opts post_request).events ≡ calls 1 ∷ []
unfolding retry resolve_retry_overrides normalize_options attempts gate allow_retry_for_method
    is_idempotent_method
posted_once = refl

retry-bounds_example :
    (0 < count_calls (retry flaky opts get_request).events)
    × (count_calls (retry flaky opts get_request).events ≤ limit opts get_request)
unfolding normalize_options
retry-bounds_example = retry-bounds flaky opts get_request refl (omega arith) (omega arith)

reply_uninvited : (k : ℕ) → invites (reply k).0 ≡ false
reply_uninvited k = ground arith

post-IsOneShot : IsOneShot flaky opts post_request
unfolding is_idempotent_method
post-IsOneShot = record {
  unlisted = refl;
  no_auto_key = refl;
  not_idempotent = refl;
  no_key = refl;
  no_request_id = refl;
  no_hedging = refl;
  uninvited = reply_uninvited;
}

retry-IsOneShot_example : count_calls (retry flaky opts post_request).events ≤ 1
retry-IsOneShot_example = retry-IsOneShot flaky opts post_request post-IsOneShot

twice : (P : ℕ → Type 0) → P 1 → P 2 → (k : ℕ) → 0 < k → k < 3 → P k
twice P a b zero l h = absurd (omega arith)
twice P a b (suc zero) l h = a
twice P a b (suc (suc zero)) l h = b
twice P a b (suc (suc (suc k))) l h = absurd (omega arith)

abbrev WaitsAt : ℕ → Type 0
WaitsAt k =
    (d : ℕ) × (calculate_retry_sleep (active_world flaky opts get_request)
        (active_settings flaky opts get_request).0 (suc k) (reply k).0
      ≡ some d)

flaky-IsCalm :
    IsCalm
      (active_world flaky opts get_request)
      (active_settings flaky opts get_request).0
      get_request
      3
unfolding normalize_options resolve_retry_overrides allow_retry_for_method is_idempotent_method
    calculate_retry_sleep parse_retry_after
flaky-IsCalm = record {
  goes_on = λ k l h. refl;
  rewinds = λ k l h. refl;
  sleeps = twice WaitsAt (5, refl) (7000000000, refl);
  wakes = λ k d l h. refl;
  allowed = λ k l h. refl;
}

two_failures : (i : ℕ) → i < 2 → final_at (active_world flaky opts get_request) (1 + i) ≡ false
unfolding resolve_retry_overrides
two_failures zero h = refl
two_failures (suc zero) h = refl
two_failures (suc (suc i)) h = absurd (omega arith)

-- A policy of 2 ^ 32 attempts: the client is not called, and nothing is returned.
abbrev overflowing : Request
overflowing = record get_request {
  policy = some (record { condition = none; backoff = pos 0; max_attempts = pos (2 ^ 32) });
}

not_sent : retry flaky opts overflowing ≡ record { resp = none; error = none; events = [] }
unfolding retry resolve_retry_overrides attempts
not_sent = refl

retry-IsCalm_example :
    ((retry flaky opts get_request).resp ≡ some ok_response)
    × ((retry flaky opts get_request).error ≡ none)
    × (count_calls (retry flaky opts get_request).events ≡ 3)
unfolding normalize_options resolve_retry_overrides
retry-IsCalm_example =
    retry-IsCalm flaky opts get_request 2 flaky-IsCalm refl (omega arith) two_failures refl
