-- ===== src/Reauth.antt =====
-- middleware/reauth.go: the re-authentication middleware with its barrier, as a state machine. A step
-- is what one request does between two points where others can run: the sections under the mutex are
-- one step each, and the wrapped client, the refresh and the context are moves of the environment.
pub mod SingleFlight
pub mod Requests
mod Effects
mod Invariant
mod Tests
use aoni.Base.{
  ℕ, zero, suc, ◌+◌, ◌%◌, ◌^◌, ◌==◌, ◌≡◌, Bool, true, false, not, ◌&&◌, ◌||◌, List, [], ◌∷◌, ◌++◌,
  Option, none, some, ltb, if◌then◌else◌,
}
use aoni.Base.Int.{ℤ, is_positive, pos_part}

pub data Error : Type 0 where
  cause : ℕ → Error

-- What the wrapped client returns; of a response only the status code is read.
pub record Answer : Type 0 where
  pub status_code : Option ℕ
  pub error : Option Error

-- has_refresh says whether Refresh is not nil.
pub record ReauthConfig : Type 0 where
  pub trigger : Option (Answer → Bool)
  pub has_refresh : Bool
  pub max_retries : ℤ

abbrev pub is_unauthorized : Answer → Bool
is_unauthorized r = elim r.status_code [ none ↦ false | some code ↦ code == 401 ]

abbrev pub triggers : ReauthConfig → Answer → Bool
triggers cfg r = elim cfg.trigger [ none ↦ is_unauthorized r | some trigger ↦ trigger r ]

unfoldable pub retries : ReauthConfig → ℕ
retries cfg = if is_positive cfg.max_retries then pos_part cfg.max_retries else 1

-- The channels are numbered from 1 in the order in which they are made, 0 is nil; closed says which
-- of them are closed. generation is a uint64.
pub record Barrier : Type 0 where
  pub in_flight : Bool
  pub wait_chan : ℕ
  pub last_err : Option Error
  pub generation : ℕ
  pub closed : ℕ → Bool

abbrev pub new_barrier : Barrier
new_barrier = record {
  in_flight = false;
  wait_chan = 0;
  last_err = none;
  generation = 0;
  closed = λ c. false;
}

pub data Outcome : Type 0 where
  answered : Answer → Outcome
  reauth_failed : Error → Outcome

-- Where a request is, with startGen and attempt where they are still needed.
pub data Pc : Type 0 where
  starting : Pc
  calling entering : ℕ → ℕ → Pc
  refreshing resuming woken : ℕ → Pc
  waiting : ℕ → ℕ → Pc
  returned : Outcome → Pc
  panicked : Pc

-- What the environment lets a request do: go on by itself, have the answer of the wrapped client or
-- the result of the refresh, or see its context end.
pub data Move : Type 0 where
  go : Move
  gets : Answer → Move
  refreshed : Option Error → Move
  cancelled : Error → Move

-- refreshes g is a call of Refresh for a request whose startGen is g.
pub data Event : Type 0 where
  calls closes : Event
  refreshes : ℕ → Event

pub record Result : Type 0 where
  pub barrier : Barrier
  pub pc : Pc
  pub events : List Event

abbrev pub after_refresh : ℕ → Option Error → Pc
after_refresh a none = resuming a
after_refresh a (some e) = returned (reauth_failed e)

abbrev pub close_body : Answer → List Event
close_body r = elim r.status_code [ none ↦ [] | some code ↦ closes ∷ [] ]

-- The head of the loop, with the answer in hand.
abbrev pub loop_head : ReauthConfig → Barrier → ℕ → ℕ → Answer → Result
loop_head cfg b g a r =
    if not (ltb a (retries cfg))
    then record { barrier = b; pc = returned (answered r); events = [] }
    else if not (triggers cfg r)
    then record { barrier = b; pc = returned (answered r); events = [] }
    else if not cfg.has_refresh
    then record { barrier = b; pc = returned (answered r); events = [] }
    else record { barrier = b; pc = entering g a; events = close_body r }

abbrev pub begin_refresh : Barrier → Barrier
begin_refresh b = record b { in_flight = true; wait_chan = b.wait_chan + 1 }

-- The first section of execute.
abbrev pub execute : Barrier → ℕ → ℕ → Result
execute b g a =
    if ltb g b.generation
    then record { barrier = b; pc = after_refresh a b.last_err; events = [] }
    else if b.in_flight
    then record { barrier = b; pc = waiting b.wait_chan a; events = [] }
    else record { barrier = begin_refresh b; pc = refreshing a; events = refreshes g ∷ [] }

abbrev pub finish_refresh : Barrier → Option Error → Barrier
finish_refresh b e = record b {
  in_flight = false;
  last_err = e;
  generation = (b.generation + 1) % 2 ^ 64;
  closed = λ c. c == b.wait_chan || b.closed c;
}

-- The last section of execute: to close a nil or a closed channel panics.
abbrev pub finish : Barrier → ℕ → Option Error → Result
finish b a e =
    if b.wait_chan == 0 || b.closed b.wait_chan
    then record { barrier = b; pc = panicked; events = [] }
    else record { barrier = finish_refresh b e; pc = after_refresh a e; events = [] }

-- One step of a request; none where the move is not enabled.
unfoldable pub act : ReauthConfig → Move → Barrier → Pc → Option Result
act cfg go b starting =
    some (record { barrier = b; pc = calling b.generation 0; events = calls ∷ [] })
act cfg (gets r) b (calling g a) = some (loop_head cfg b g a r)
act cfg go b (entering g a) = some (execute b g a)
act cfg (refreshed e) b (refreshing a) = some (finish b a e)
act cfg go b (waiting c a) =
    if b.closed c then some (record { barrier = b; pc = woken a; events = [] }) else none
act cfg (cancelled e) b (waiting c a) =
    some (record { barrier = b; pc = returned (reauth_failed e); events = [] })
act cfg go b (woken a) = some (record { barrier = b; pc = after_refresh a b.last_err; events = [] })
act cfg go b (resuming a) =
    some (record { barrier = b; pc = calling b.generation (suc a); events = calls ∷ [] })
act _ _ _ _ = none

-- The barrier with all requests, and what they have done so far, the latest first.
pub record System : Type 0 where
  pub barrier : Barrier
  pub pc : ℕ → Pc
  pub events : List Event

abbrev pub update : (ℕ → Pc) → ℕ → Pc → ℕ → Pc
update f i p j = if i == j then p else f j

abbrev pub initial : System
initial = record { barrier = new_barrier; pc = λ i. starting; events = [] }

abbrev pub advanced : System → ℕ → Result → System
advanced s i r = record {
  barrier = r.barrier;
  pc = update s.pc i r.pc;
  events = r.events ++ s.events;
}

pub data Step (cfg : ReauthConfig) (s : System) : System → Type 0 where
  pick :
      (i : ℕ) (m : Move) (r : Result)
      → act cfg m s.barrier (s.pc i) ≡ some r
      → Step cfg s (advanced s i r)

pub data Reach (cfg : ReauthConfig) : System → Type 0 where
  start : Reach cfg initial
  later : {s t : System} → Reach cfg s → Step cfg s t → Reach cfg t
