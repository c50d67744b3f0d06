-- ===== src/Dispatch/Hedging.antt =====
-- pipeline/resilience.go: the race of two attempts, as a machine that is driven by the events of its
-- select. An attempt whose request cannot be cloned sends its error as any other result.
use aoni.Base.{
  ℕ, ◌+◌, ◌-◌, ◌==◌, Bool, true, false, not, ◌&&◌, ◌||◌, List, [], ◌∷◌, Option, none, some, ltb,
  if◌then◌else◌, any,
}
use aoni.Base.Int.{ℤ, is_positive, pos}
use aoni.Base.Text.{Text, bytes, text_eq}
use aoni.Dispatch.{Error, Request}

-- context is the attempt, 1 or 2, whose context the request of the response has; none where the
-- response has no request.
pub record HedgeResponse : Type 0 where
  pub body : ℕ
  pub context : Option ℕ

-- expired is the end of the request's context, timer the end of the delay, and result what an attempt
-- sends to the channel.
pub data Event : Type 0 where
  expired : Error → Event
  timer : Event
  result : Option HedgeResponse → Option Error → Event

-- received counts the results that the loop has read, launched the attempts that it has started.
pub record Race : Type 0 where
  pub active_count : ℕ
  pub req2_started : Bool
  pub first_err : Option Error
  pub launched : ℕ
  pub received : ℕ

-- How the loop ends: with a response and the attempts whose contexts are cancelled at once, with an
-- error, or with a nil pointer. drained is the number of results that are read in the background.
pub data Finish : Type 0 where
  won : HedgeResponse → ℕ → ℕ → Finish
  lost : Option Error → ℕ → Finish
  crashed : Finish

pub data Status : Type 0 where
  running : Race → Status
  finished : Race → Finish → Status

abbrev pub started : Race
started = record {
  active_count = 1;
  req2_started = false;
  first_err = none;
  launched = 1;
  received = 0;
}

abbrev pub launch_second : Race → Race
launch_second s = record s {
  active_count = s.active_count + 1;
  req2_started = true;
  launched = s.launched + 1;
}

-- The loser whose context handleHedgeWinner cancels.
unfoldable pub loser_of : HedgeResponse → ℕ
loser_of r = elim r.context [ none ↦ 2 | some c ↦ if c == 2 then 1 else 2 ]

abbrev keep_first : Option Error → Error → Option Error
keep_first none e = some e
keep_first (some first) e = some first

-- The head of the loop: it goes on while an attempt is active.
abbrev pub loop_head : Race → Status
loop_head s = if ltb 0 s.active_count then running s else finished s (lost s.first_err 0)

abbrev pub receive : Race → Option HedgeResponse → Option Error → Status
receive s (some r) none = finished s (won r (loser_of r) s.active_count)
receive s none none = finished s crashed
receive s resp (some e) =
    let kept = record s { first_err = keep_first s.first_err e } in
    if s.active_count == 0 && not s.req2_started
    then loop_head (launch_second kept)
    else loop_head kept

unfoldable pub step : Event → Race → Status
step (expired e) s = finished s (lost (some e) s.active_count)
step timer s = if not s.req2_started then loop_head (launch_second s) else loop_head s
step (result resp error) s =
    receive (record s { active_count = s.active_count - 1; received = s.received + 1 }) resp error

unfoldable pub run : List Event → Status → Status
run [] s = s
run (e ∷ es) (running s) = run es (step e s)
run (e ∷ es) (finished s f) = finished s f

-- dispatchHedgingAttempts
unfoldable pub dispatch_hedging_attempts : List Event → Status
dispatch_hedging_attempts es = run es (running started)

unfoldable pub is_idempotent_method : Text → Bool
is_idempotent_method m =
    any (text_eq m) (bytes "GET" ∷ bytes "HEAD" ∷ bytes "OPTIONS" ∷ bytes "TRACE" ∷ [])

-- override is HedgingDelayOverride of the request's configuration. computed is what ComputeDelay of the
-- dynamic hedging returns, where there is one.
pub record HedgingConfig : Type 0 where
  pub computed : Option ℤ
  pub default_delay : ℤ
  pub allow_non_read_only : Bool

unfoldable pub resolve_hedging_delay : Option ℤ → Option HedgingConfig → ℤ
resolve_hedging_delay (some d) cfg = d
resolve_hedging_delay none none = pos 0
resolve_hedging_delay none (some cfg) = elim cfg.computed [ none ↦ cfg.default_delay | some d ↦ d ]

-- Whether executeWithHedging races two attempts; otherwise it calls the doer once.
unfoldable pub is_hedged : Option ℤ → Option HedgingConfig → Request → Bool
is_hedged override cfg req =
    let allowed =
      req.has_config && req.allow_non_read_only
      || elim cfg [ none ↦ false | some c ↦ c.allow_non_read_only ] in
    if not allowed && not (is_idempotent_method req.method)
    then false
    else is_positive (resolve_hedging_delay override cfg)
