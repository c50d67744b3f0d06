-- ===== src/Health.antt =====
-- internal/health/health.go: the health tracker of one endpoint. Each atomic access is one step, the
-- coarse clock is an argument in nanoseconds, and the two callbacks are collected as notices.
pub mod Laws
mod Tests
use aoni.Base.{
  ℕ, ◌+◌, ◌-◌, ◌*◌, ◌%◌, ◌^◌, Bool, true, false, List, [], ◌∷◌, ◌++◌, ltb, leb, ◌==◌, if◌then◌else◌,
}
use aoni.Base.Text.{Text}
use aoni.Base.Int.{ℤ, pos, negsuc, pos_part, is_positive, leb_ℕ, to_int64}
use aoni.Base.Foundation.{Foundation}

pub data Status : Type 0 where
  healthy degraded unhealthy recovering : Status

-- fail_count is a uint32 and recovered_at an int64. A tracker is made by `new_tracker` only, so
-- retry_after is positive. on_unhealthy and on_recovered say whether the callback is not nil.
pub record Tracker : Type 0 where
  pub name : Text
  pub max_fails : ℕ
  pub retry_after : ℕ
  pub fail_count : ℕ
  pub recovered_at : ℤ
  pub is_unhealthy : Bool
  pub on_unhealthy : Bool
  pub on_recovered : Bool

-- A call of onUnhealthy or of onRecovered.
pub data Notice : Type 0 where
  marked : Text → ℕ → ℕ → Notice
  recovered : Text → Notice

abbrev pub default_retry : ℕ
default_retry = 10 * 1000000000

unfoldable pub new_tracker : Foundation → Text → ℕ → ℤ → Bool → Bool → Tracker
new_tracker lib name max_fails retry_after on_unhealthy on_recovered = record {
  name = name;
  max_fails = lib.coalesce max_fails 3;
  retry_after = if is_positive retry_after then pos_part retry_after else default_retry;
  fail_count = 0;
  recovered_at = pos 0;
  is_unhealthy = false;
  on_unhealthy = on_unhealthy;
  on_recovered = on_recovered;
}

unfoldable pub mark_failed : ℕ → Tracker → Tracker × List Notice
mark_failed now t =
    let fails = (t.fail_count + 1) % 2 ^ 32 in
    if ltb fails t.max_fails then (record t { fail_count = fails }, []) else (
      record t {
        fail_count = fails;
        recovered_at = to_int64 (now + t.retry_after);
        is_unhealthy = true;
      },
      if t.is_unhealthy
          then []
          else if t.on_unhealthy
          then marked t.name fails t.retry_after ∷ []
          else [],
    )

-- The compare-and-swap from true to false, with its callback.
abbrev pub recover : Tracker → Tracker × List Notice
recover t = (
  record t { is_unhealthy = false },
  if t.is_unhealthy then if t.on_recovered then recovered t.name ∷ [] else [] else [],
)

unfoldable pub mark_success : Tracker → Tracker × List Notice
mark_success t = recover (record t { fail_count = 0 })

unfoldable pub reset : Tracker → Tracker × List Notice
reset t = recover (record t { fail_count = 0; recovered_at = pos 0 })

unfoldable pub is_available : ℕ → Tracker → Bool
is_available now t = if t.is_unhealthy then leb_ℕ t.recovered_at now else true

unfoldable pub status : ℕ → Tracker → Status
status now t =
    if t.is_unhealthy
    then if leb_ℕ t.recovered_at now then recovering else unhealthy
    else if ltb 0 t.fail_count
    then degraded
    else healthy

abbrev until : ℤ → ℕ → ℕ
until (pos r) now = if r == 0 then 0 else r - now
until (negsuc r) now = 0

-- max(rec - now, 0), with the wall clock for `now`.
unfoldable pub cooldown_remaining : ℕ → Tracker → ℕ
cooldown_remaining now t = if t.is_unhealthy then until t.recovered_at now else 0

pub data Event : Type 0 where
  fails : ℕ → Event
  succeeds resets : Event

pub step : Event → Tracker → Tracker × List Notice
unfolding mark_failed mark_success reset
step (fails now) t = mark_failed now t
step succeeds t = mark_success t
step resets t = reset t

pub run : List Event → Tracker → Tracker × List Notice
run [] t = (t, [])
run (e ∷ es) t =
    let (t', notices) = step e t in let (t'', later) = run es t' in (t'', notices ++ later)
