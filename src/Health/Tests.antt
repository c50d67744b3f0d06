-- ===== src/Health/Tests.antt =====
-- Runs and instances for the health tracker.
use aoni.Base.{◌≡◌, refl, inr, true, ◌||◌, List, [], ◌∷◌, arith, ltb, leb}
use aoni.Base.Text.{bytes}
use aoni.Base.Int.{pos}
use aoni.Base.Sample.{library}
use aoni.Health.{
  Tracker, Event, fails, succeeds, resets, new_tracker, mark_failed, is_available, status,
  unhealthy, recovering, run, step,
}
use aoni.Health.Laws.{IsConsistent, failures, is_available-failures}

abbrev fresh : Tracker
unfolding new_tracker
fresh = new_tracker library (bytes "a") 0 (pos 50) true true

abbrev history : List Event
history = fails 10 ∷ fails 11 ∷ fails 12 ∷ succeeds ∷ fails 13 ∷ resets ∷ []

tripped :
    (status 40 (run (fails 10 ∷ fails 11 ∷ fails 12 ∷ []) fresh).0 ≡ unhealthy)
    × (status 62 (run (fails 10 ∷ fails 11 ∷ fails 12 ∷ []) fresh).0 ≡ recovering)
unfolding run status new_tracker step
tripped = (refl, refl)

fresh-IsConsistent : IsConsistent fresh
unfolding new_tracker
fresh-IsConsistent = record { bounded = omega arith; flagged = inr (omega arith) }

is_available-failures_example :
    is_available 40 (mark_failed 12 (failures (10 ∷ 11 ∷ []) fresh)).0 ≡ (ltb 3 3 || leb 62 40)
unfolding new_tracker
is_available-failures_example =
    is_available-failures (10 ∷ 11 ∷ []) 12 40 fresh refl refl (omega arith) (omega arith)
