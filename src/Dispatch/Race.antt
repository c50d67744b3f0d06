-- ===== src/Dispatch/Race.antt =====
-- pipeline/resilience.go: what the race of two attempts comes to, whatever the order of its events.
use aoni.Base.{
  ℕ, ◌+◌, ◌-◌, ◌≤◌, ◌<◌, ◌==◌, ◌≡◌, refl, sym, ap, ◌∙◌, inl, inr, Bool, true, false, List, [], ◌∷◌,
  Option, none, some, arith, ltb, Option-cases,
}
use aoni.Dispatch.{Error}
use aoni.Dispatch.Hedging.{
  HedgeResponse, Event, expired, timer, result, Race, Finish, won, lost, crashed, Status, running,
  finished, started, launch_second, loop_head, receive, step, run, dispatch_hedging_attempts,
}

pub data Verdict : Type 0 where
  pending : Verdict
  answered : HedgeResponse → Verdict
  failed : Option Error → Verdict
  nil_pointer : Verdict

-- What the events come to when the first error is given: the timer plays no part, the first success
-- or the end of the context decides, and otherwise the second error, which yields the first.
pub verdict : Option Error → List Event → Verdict
verdict first [] = pending
verdict first (timer ∷ es) = verdict first es
verdict first (expired e ∷ es) = failed (some e)
verdict first (result (some r) none ∷ es) = answered r
verdict first (result none none ∷ es) = nil_pointer
verdict none (result resp (some e) ∷ es) = verdict (some e) es
verdict (some first) (result resp (some e) ∷ es) = failed (some first)

abbrev pub verdict_of : Status → Verdict
verdict_of (running s) = pending
verdict_of (finished s (won r loser drained)) = answered r
verdict_of (finished s (lost e drained)) = failed e
verdict_of (finished s crashed) = nil_pointer

abbrev errors_of : Option Error → ℕ
errors_of none = 0
errors_of (some e) = 1

abbrev seconds : Bool → ℕ
seconds true = 1
seconds false = 0

-- An attempt is active; those that were launched are active or were read; only errors were read.
record IsRacing (s : Race) : Type 0 where
  active : 0 < s.active_count
  counted : s.launched ≡ s.received + s.active_count
  both : s.launched ≡ 1 + seconds s.req2_started
  errors : s.received ≡ errors_of s.first_err

-- The results that were not read are read in the background.
abbrev IsOver : Race → Finish → Type 0
IsOver s (won r loser drained) = s.launched ≡ s.received + drained
IsOver s (lost e drained) = s.launched ≡ s.received + drained
IsOver s crashed = s.launched ≡ s.received + s.active_count

abbrev IsSound : Status → Type 0
IsSound (running s) =
    (s.launched ≡ s.received + s.active_count) × (0 < s.active_count) × (s.launched ≤ 2)
IsSound (finished s f) = IsOver s f × (s.launched ≤ 2)

abbrev Racing : Status → Type 0
Racing (running s) = IsRacing s
Racing (finished s f) = IsOver s f × (s.launched ≤ 2)

seconds-le : (b : Bool) → seconds b ≤ 1
seconds-le true = omega arith
seconds-le false = omega arith

-- What the rest of the events makes of a status.
abbrev after : Status → List Event → Verdict
after (running s) es = verdict s.first_err es
after (finished s f) es = verdict_of (finished s f)

record IsStep (e : Event) (s : Race) (t : Status) : Type 0 where
  racing : Racing t
  same : (es : List Event) → verdict s.first_err (e ∷ es) ≡ after t es

loop_head-running : (s : Race) → 0 < s.active_count → loop_head s ≡ running s
loop_head-running s h = let on : ltb 0 s.active_count ≡ true = ground arith in rw on refl

timer-IsStep :
    (s : Race) → IsRacing s → (b : Bool) → s.req2_started ≡ b → IsStep timer s (step timer s)
unfolding step verdict
timer-IsStep s inv true e =
    simp (e, loop_head-running s inv.active) (record { racing = inv; same = λ es. refl })
timer-IsStep s inv false e =
    simp (e, loop_head-running (launch_second s) (omega arith))
      (record {
        racing = record {
          active = omega arith;
          counted = omega (arith, inv.counted);
          both = omega (arith, inv.both, ap seconds e);
          errors = inv.errors;
        };
        same = λ es. refl;
      })

module _ (s : Race) (inv : IsRacing s) where
  small : s.launched ≤ 2
  small = omega (arith, inv.both, seconds-le s.req2_started)

  abbrev read : Race
  read = record s { active_count = s.active_count - 1; received = s.received + 1 }

  read-counted : s.launched ≡ s.received + 1 + (s.active_count - 1)
  read-counted = omega (arith, inv.counted, inv.active)

  -- The first error, while the other attempt is active.
  first_error :
      (resp : Option HedgeResponse) (e : Error)
      → s.first_err ≡ none
      → (b : Bool) → s.req2_started ≡ b
      → IsStep (result resp (some e)) s (receive read resp (some e))
  unfolding verdict
  first_error resp e h true q =
      let none_read = ap errors_of h in
      let two = ap seconds q in
      let busy : (s.active_count - 1 == 0) ≡ false =
        ground (arith, inv.counted, inv.both, inv.errors, none_read, two) in
      simp
        (
          busy,
          h,
          loop_head-running (record read { first_err = some e })
              (omega (arith, inv.counted, inv.both, inv.errors, none_read, two)),
        )
        (record {
          racing = record {
            active = omega (arith, inv.counted, inv.both, inv.errors, none_read, two);
            counted = read-counted;
            both = inv.both;
            errors = omega (arith, inv.errors, none_read);
          };
          same = λ es. rw h refl;
        })
  first_error resp e h false q =
      let none_read = ap errors_of h in
      let one = ap seconds q in
      let idle : (s.active_count - 1 == 0) ≡ true =
        ground (arith, inv.counted, inv.both, inv.errors, none_read, one) in
      simp
        (
          idle,
          q,
          h,
          loop_head-running (launch_second (record read { first_err = some e })) (omega arith),
        )
        (record {
          racing = record {
            active = omega arith;
            counted = omega (arith, read-counted);
            both = omega (arith, inv.both, one);
            errors = omega (arith, inv.errors, none_read);
          };
          same = λ es. rw h refl;
        })

  -- The second error ends the race.
  second_error :
      (resp : Option HedgeResponse) (e f : Error)
      → s.first_err ≡ some f
      → (b : Bool) → s.req2_started ≡ b
      → IsStep (result resp (some e)) s (receive read resp (some e))
  unfolding verdict
  second_error resp e f h true q =
      let one_read = ap errors_of h in
      let two = ap seconds q in
      let idle : (s.active_count - 1 == 0) ≡ true =
        ground (arith, inv.counted, inv.both, inv.errors, one_read, two) in
      let off : ltb 0 (s.active_count - 1) ≡ false =
        ground (arith, inv.counted, inv.both, inv.errors, one_read, two) in
      simp (idle, q, h, off)
        (record {
          racing = (omega (arith, inv.counted, inv.both, inv.errors, one_read, two), small);
          same = λ es. rw h refl;
        })
  second_error resp e f h false q =
      absurd
        (omega (arith, ap seconds q, ap errors_of h, inv.counted, inv.both, inv.errors, inv.active))

  step-IsStep : (e : Event) → IsStep e s (step e s)
  unfolding step verdict
  step-IsStep (expired e) = record { racing = (inv.counted, small); same = λ es. refl }
  step-IsStep timer = timer-IsStep s inv s.req2_started refl
  step-IsStep (result (some r) none) = record { racing = (read-counted, small); same = λ es. refl }
  step-IsStep (result none none) = record { racing = (read-counted, small); same = λ es. refl }
  step-IsStep (result resp (some e)) = elim (Option-cases s.first_err) [
    | inl h ↦ first_error resp e h s.req2_started refl
    | inr (f, h) ↦ second_error resp e f h s.req2_started refl
  ]

Racing-IsSound : (t : Status) → Racing t → IsSound t
Racing-IsSound (running s) inv = (inv.counted, inv.active, small s inv)
Racing-IsSound (finished s f) h = h

verdict-nil : (o : Option Error) → pending ≡ verdict o []
unfolding verdict
verdict-nil none = refl
verdict-nil (some e) = refl

run-Racing :
    (es : List Event) (t : Status)
    → Racing t
    → IsSound (run es t) × (verdict_of (run es t) ≡ after t es)
unfolding run verdict
run-Racing [] (running s) inv = (Racing-IsSound (running s) inv, verdict-nil s.first_err)
run-Racing [] (finished s f) h = (h, refl)
run-Racing (e ∷ es) (finished s f) h = (h, refl)
run-Racing (e ∷ es) (running s) inv =
    let st = step-IsStep s inv e in
    let rest = run-Racing es (step e s) st.racing in (rest.0, rest.1 ∙ sym (st.same es))

started-IsRacing : IsRacing started
started-IsRacing = record { active = omega arith; counted = refl; both = refl; errors = refl }

-- Whatever the order in which the delay ends, the attempts end and the context ends, the race comes to
-- what the verdict of the results and of the end of the context says, in which the delay plays no
-- part: the first success, or the end of the context, or the first of two errors.
pub dispatch_hedging_attempts-verdict :
    (es : List Event) → verdict_of (dispatch_hedging_attempts es) ≡ verdict none es
unfolding dispatch_hedging_attempts
dispatch_hedging_attempts-verdict es = (run-Racing es (running started) started-IsRacing).1

-- At every point of a race at most two attempts were launched. While it runs, one at least is active,
-- and the active ones are those whose results were not read; when it is over with a response or an
-- error, as many results are read in the background as were not read before.
dispatch_hedging_attempts-IsSound : (es : List Event) → IsSound (dispatch_hedging_attempts es)
unfolding dispatch_hedging_attempts
dispatch_hedging_attempts-IsSound es = (run-Racing es (running started) started-IsRacing).0
