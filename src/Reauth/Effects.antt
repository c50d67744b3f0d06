-- ===== src/Reauth/Effects.antt =====
-- middleware/reauth.go: the three effects that a step of one request can have on the barrier.
use aoni.Base.{
  ℕ, ◌≤◌, ◌<◌, ◌==◌, ◌≡◌, refl, inl, inr, Bool, true, false, ◌||◌, List, [], ◌∷◌, Option, none,
  some, arith, ltb, Bool-cases,
}
use mathlib.Core.Path.{subst}
use aoni.Reauth.{
  Error, Answer, ReauthConfig, triggers, retries, Barrier, Pc, starting, calling, entering,
  refreshing, resuming, woken, waiting, panicked, Move, go, gets, refreshed, cancelled, Event,
  calls, closes, refreshes, Result, after_refresh, begin_refresh, finish_refresh, act, loop_head,
  execute, finish,
}

-- The generations for which Refresh was called, the latest first.
abbrev pub begun : List Event → List ℕ
begun [] = []
begun (calls ∷ es) = begun es
begun (closes ∷ es) = begun es
begun (refreshes g ∷ es) = g ∷ begun es

abbrev pub is_refreshing : Pc → Bool
is_refreshing (refreshing a) = true
is_refreshing _ = false

-- What the locals of a request say about the barrier.
abbrev pub IsFresh : Barrier → Pc → Type 0
IsFresh b (calling g a) = g ≤ b.generation
IsFresh b (entering g a) = g ≤ b.generation
IsFresh b (waiting c a) = (0 < c) × (c ≤ b.wait_chan)
IsFresh b panicked = ⊥
IsFresh b _ = Unit

abbrev pub IsOpen : Barrier → Type 0
IsOpen b = (0 < b.wait_chan) × (b.closed b.wait_chan ≡ false)

pub data Effect (b : Barrier) (p : Pc) (r : Result) : Type 0 where
  quiet :
      r.barrier ≡ b
      → begun r.events ≡ []
      → is_refreshing p ≡ false
      → is_refreshing r.pc ≡ false
      → ((b.in_flight ≡ true → IsOpen b) → IsFresh b p → IsFresh b r.pc)
      → Effect b p r
  begins :
      (g : ℕ)
      → r.barrier ≡ begin_refresh b
      → r.events ≡ refreshes g ∷ []
      → b.in_flight ≡ false
      → is_refreshing r.pc ≡ true
      → b.generation ≤ g
      → (IsFresh b p → g ≤ b.generation)
      → Effect b p r
  finishes :
      (e : Option Error) (a : ℕ)
      → p ≡ refreshing a
      → begun r.events ≡ []
      → (IsOpen b → (r.barrier ≡ finish_refresh b e) × (r.pc ≡ after_refresh a e))
      → Effect b p r

after_refresh-quiet :
    (b : Barrier) (p : Pc) (a : ℕ) (e : Option Error)
    → is_refreshing p ≡ false
    → Effect b p (record { barrier = b; pc = after_refresh a e; events = [] })
after_refresh-quiet b p a none h = quiet refl refl h refl (λ o f. tt)
after_refresh-quiet b p a (some e) h = quiet refl refl h refl (λ o f. tt)

loop_head-Effect :
    (cfg : ReauthConfig) (b : Barrier) (g a : ℕ) (x : Answer)
    → Effect b (calling g a) (loop_head cfg b g a x)
loop_head-Effect cfg b g a x = elim (Bool-cases (ltb a (retries cfg))) [
  | inr h ↦ rw h (quiet refl refl refl refl (λ o f. tt))
  | inl h ↦ elim (Bool-cases (triggers cfg x)) [
    | inr t ↦ rw (h, t) (quiet refl refl refl refl (λ o f. tt))
    | inl t ↦ elim (Bool-cases cfg.has_refresh) [
      | inr u ↦ rw (h, t, u) (quiet refl refl refl refl (λ o f. tt))
      | inl u ↦ rw (h, t, u) (quiet refl (body x.status_code) refl refl (λ o f. f))
    ]
  ]
]
  where
    body : (c : Option ℕ) → begun (elim c [ none ↦ [] | some code ↦ closes ∷ [] ]) ≡ []
    body none = refl
    body (some code) = refl

execute-Effect : (b : Barrier) (g a : ℕ) → Effect b (entering g a) (execute b g a)
execute-Effect b g a = elim (Bool-cases (ltb g b.generation)) [
  | inl h ↦ rw h (after_refresh-quiet b (entering g a) a b.last_err refl)
  | inr h ↦ elim (Bool-cases b.in_flight) [
    | inl f ↦ simp (h, f) (quiet refl refl refl refl (λ o u. ((o f).0, omega arith)))
    | inr f ↦ simp (h, f) (begins g refl refl f refl (ground arith) (λ u. u))
  ]
]

finish-Effect : (b : Barrier) (a : ℕ) (e : Option Error) → Effect b (refreshing a) (finish b a e)
finish-Effect b a e = elim (Bool-cases (b.wait_chan == 0 || b.closed b.wait_chan)) [
  | inl h ↦ rw h (finishes e a refl refl (λ o. absurd (shut (b.closed b.wait_chan) h o)))
  | inr h ↦ rw h (finishes e a refl refl (λ o. (refl, refl)))
]
  where
    shut : (c : Bool) → (b.wait_chan == 0 || c) ≡ true → (0 < b.wait_chan) × (c ≡ false) → ⊥
    shut c h o = ground arith

-- The result that a step returns is the one that was computed.
transfer : {b : Barrier} {p : Pc} {x r : Result} → some x ≡ some r → Effect b p x → Effect b p r
transfer {b} {p} {x} {r} h = subst (Effect b p) (cc)

pub act-Effect :
    (cfg : ReauthConfig) (m : Move) (b : Barrier) (p : Pc) {r : Result}
    → act cfg m b p ≡ some r
    → Effect b p r
unfolding act
act-Effect cfg go b starting h = transfer h (quiet refl refl refl refl (λ o f. omega arith))
act-Effect cfg (gets x) b (calling g a) h = transfer h (loop_head-Effect cfg b g a x)
act-Effect cfg go b (entering g a) h = transfer h (execute-Effect b g a)
act-Effect cfg (refreshed e) b (refreshing a) h = transfer h (finish-Effect b a e)
act-Effect cfg go b (waiting c a) h = elim (Bool-cases (b.closed c)) [
  | inl u ↦ transfer (rw u at h) (quiet refl refl refl refl (λ o f. tt))
  | inr u ↦ absurd (ground arith)
]
act-Effect cfg (cancelled e) b (waiting c a) h = transfer h (quiet refl refl refl refl (λ o f. tt))
act-Effect cfg go b (woken a) h = transfer h (after_refresh-quiet b (woken a) a b.last_err refl)
act-Effect cfg go b (resuming a) h = transfer h (quiet refl refl refl refl (λ o f. omega arith))
act-Effect cfg _ b _ h = absurd (cc)
