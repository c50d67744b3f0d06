-- ===== src/Reauth/Tests.antt =====
-- Runs and instances for the re-authentication middleware.
use aoni.Base.{
  ℕ, ◌+◌, ◌*◌, ◌≤◌, ◌≡◌, ◌⊎◌, refl, true, List, [], ◌∷◌, Option, none, some, arith, length,
}
use mathlib.Core.Logic.{◌≢◌}
use aoni.Base.Int.{pos}
use aoni.Reauth.{
  Answer, ReauthConfig, retries, Pc, waiting, returned, answered, panicked, Move, go, gets,
  refreshed, calls, closes, Result, new_barrier, act, System, initial, advanced, pick, Reach, start,
  later,
}
use aoni.Reauth.Effects.{begun, is_refreshing}
use aoni.Reauth.Invariant.{count_down, flights}
use aoni.Reauth.SingleFlight.{Closes, Reach-SingleFlight, Reach-waiting}
use aoni.Reauth.Requests.{count_calls, Turns, fresh, turn, Turns-bounds}

abbrev settled : System → ℕ → Option Result → System
settled s i none = s
settled s i (some r) = advanced s i r

-- Moves of the given requests; a move that is not enabled changes nothing.
abbrev run : ReauthConfig → System → List (ℕ × Move) → System
run cfg s [] = s
run cfg s ((i, m) ∷ moves) = run cfg (settled s i (act cfg m s.barrier (s.pc i))) moves

settled-Reach :
    {cfg : ReauthConfig} {s : System} (i : ℕ) (m : Move) (o : Option Result)
    → act cfg m s.barrier (s.pc i) ≡ o
    → Reach cfg s
    → Reach cfg (settled s i o)
settled-Reach i m none e r = r
settled-Reach i m (some x) e r = later r (pick i m x e)

run-Reach :
    (cfg : ReauthConfig) (moves : List (ℕ × Move)) (s : System)
    → Reach cfg s
    → Reach cfg (run cfg s moves)
run-Reach cfg [] s r = r
run-Reach cfg ((i, m) ∷ moves) s r = run-Reach cfg moves _ (settled-Reach i m _ refl r)

abbrev by_default : ReauthConfig
by_default = record { trigger = none; has_refresh = true; max_retries = pos 0 }

abbrev unauthorized : Answer
unauthorized = record { status_code = some 401; error = none }

abbrev welcome : Answer
welcome = record { status_code = some 200; error = none }

-- Two requests meet a 401; the first one refreshes, the second one waits.
abbrev herd : List (ℕ × Move)
herd = (0, go) ∷ (1, go) ∷ (0, gets unauthorized) ∷ (1, gets unauthorized) ∷ (0, go) ∷ (1, go) ∷ []

abbrev halted : System
halted = run by_default initial herd

abbrev replayed : System
replayed =
    run by_default halted
      ((0, refreshed none) ∷ (1, go) ∷ (1, go) ∷ (1, go) ∷ (1, gets welcome) ∷ [])

second_waits : halted.pc 1 ≡ waiting 1 0
unfolding act retries
second_waits = refl

second_replays : replayed.pc 1 ≡ returned (answered welcome)
unfolding act retries
second_replays = refl

one_refresh : begun replayed.events ≡ 0 ∷ []
unfolding act retries
one_refresh = refl

Reach-SingleFlight_example :
    (begun halted.events ≡ count_down (length (begun halted.events)))
    × ((i j : ℕ) → is_refreshing (halted.pc i) ≡ true → is_refreshing (halted.pc j) ≡ true → i ≡ j)
    × (length (begun halted.events) ≡ halted.barrier.generation + flights halted.barrier.in_flight)
    × ((i : ℕ) → halted.pc i ≢ panicked)
unfolding act retries
Reach-SingleFlight_example =
    Reach-SingleFlight {cfg = by_default} (run-Reach by_default herd initial start) (omega arith)

Reach-waiting_example :
    (halted.barrier.closed 1 ≡ true)
    ⊎ ((j : ℕ) × (is_refreshing (halted.pc j) ≡ true)
        × Closes by_default halted.barrier (halted.pc j) 1)
unfolding act retries
Reach-waiting_example =
    Reach-waiting {cfg = by_default} (run-Reach by_default herd initial start) (omega arith) 1 1 0
      refl

first_turns : Turns by_default 2 (closes ∷ calls ∷ []) (Pc.entering 0 0)
unfolding act retries
first_turns = turn (gets unauthorized) new_barrier _ (turn go new_barrier _ fresh refl) refl

Turns-bounds_example :
    (2 ≤ 5 * retries by_default + 2) × (count_calls (closes ∷ calls ∷ []) ≤ retries by_default + 1)
Turns-bounds_example = Turns-bounds first_turns
