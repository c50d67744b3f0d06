-- ===== src/Reauth/Requests.antt =====
-- middleware/reauth.go: the life of one request, whatever the others do to the barrier meanwhile.
use aoni.Base.{
  ℕ, suc, ◌+◌, ◌-◌, ◌*◌, ◌≤◌, ◌<◌, ◌≡◌, ◌==◌, ◌||◌, refl, inl, inr, List, [], ◌∷◌, ◌++◌, Option,
  none, some, arith, ltb, Bool-cases,
}
use mathlib.Core.Path.{subst}
use aoni.Reauth.{
  Error, Answer, ReauthConfig, triggers, retries, Barrier, Pc, starting, calling, entering,
  refreshing, resuming, woken, waiting, returned, panicked, Move, go, gets, refreshed, cancelled,
  Event, calls, closes, refreshes, Result, after_refresh, act, loop_head, execute, finish,
}

abbrev pub count_calls : List Event → ℕ
count_calls [] = 0
count_calls (calls ∷ es) = suc (count_calls es)
count_calls (closes ∷ es) = count_calls es
count_calls (refreshes g ∷ es) = count_calls es

count_calls-append : (xs ys : List Event) → count_calls (xs ++ ys) ≡ count_calls xs + count_calls ys
count_calls-append [] ys = omega arith
count_calls-append (calls ∷ xs) ys = omega (arith, count_calls-append xs ys)
count_calls-append (closes ∷ xs) ys = count_calls-append xs ys
count_calls-append (refreshes g ∷ xs) ys = count_calls-append xs ys

-- The turns of one request, the latest first. Before each of them the others may have changed the
-- barrier in any way.
pub data Turns (cfg : ReauthConfig) : ℕ → List Event → Pc → Type 0 where
  fresh : Turns cfg 0 [] starting
  turn :
      {n : ℕ} {es : List Event} {p : Pc} (m : Move) (b : Barrier) (r : Result)
      → Turns cfg n es p
      → act cfg m b p ≡ some r
      → Turns cfg (suc n) (r.events ++ es) r.pc

-- The steps and the calls that are left, at most.
steps_left : ℕ → Pc → ℕ
steps_left k starting = 5 * k + 2
steps_left k (calling g a) = 5 * (k - a) + 1
steps_left k (entering g a) = 5 * (k - a)
steps_left k (refreshing a) = 5 * (k - a) - 1
steps_left k (waiting c a) = 5 * (k - a) - 1
steps_left k (woken a) = 5 * (k - a) - 2
steps_left k (resuming a) = 5 * (k - a) - 3
steps_left k (returned o) = 0
steps_left k panicked = 0

calls_left : ℕ → Pc → ℕ
calls_left k starting = k + 1
calls_left k (calling g a) = k - a
calls_left k (entering g a) = k - a
calls_left k (refreshing a) = k - a
calls_left k (waiting c a) = k - a
calls_left k (woken a) = k - a
calls_left k (resuming a) = k - a
calls_left k (returned o) = 0
calls_left k panicked = 0

abbrev IsWithin : ℕ → Pc → Type 0
IsWithin k (entering g a) = a < k
IsWithin k (refreshing a) = a < k
IsWithin k (waiting c a) = a < k
IsWithin k (woken a) = a < k
IsWithin k (resuming a) = a < k
IsWithin k _ = Unit

record Falls (k : ℕ) (p : Pc) (r : Result) : Type 0 where
  within : IsWithin k r.pc
  steps : suc (steps_left k r.pc) ≤ steps_left k p
  called : count_calls r.events + calls_left k r.pc ≤ calls_left k p

loop_head-Falls :
    (cfg : ReauthConfig) (b : Barrier) (g a : ℕ) (x : Answer)
    → Falls (retries cfg) (calling g a) (loop_head cfg b g a x)
unfolding steps_left calls_left
loop_head-Falls cfg b g a x = elim (Bool-cases (ltb a (retries cfg))) [
  | inr h ↦ rw h (record { within = tt; steps = omega arith; called = omega arith })
  | inl h ↦ elim (Bool-cases (triggers cfg x)) [
    | inr t ↦ rw (h, t) (record { within = tt; steps = omega arith; called = omega arith })
    | inl t ↦ elim (Bool-cases cfg.has_refresh) [
      | inr u ↦ rw (h, t, u) (record { within = tt; steps = omega arith; called = omega arith })
      | inl u ↦
          simp (h, t, u)
            (record {
              within = ground (arith, h);
              steps = omega arith;
              called = omega (arith, body x.status_code);
            })
    ]
  ]
]
  where
    body : (c : Option ℕ) → count_calls (elim c [ none ↦ [] | some code ↦ closes ∷ [] ]) ≡ 0
    body none = refl
    body (some code) = refl

after_refresh-Falls :
    (k : ℕ) (p : Pc) (b : Barrier) (a : ℕ) (e : Option Error)
    → a < k
    → 5 * (k - a) - 2 ≤ steps_left k p
    → k - a ≤ calls_left k p
    → Falls k p (record { barrier = b; pc = after_refresh a e; events = [] })
unfolding steps_left calls_left
after_refresh-Falls k p b a none w h c = record {
  within = w;
  steps = omega arith;
  called = omega arith;
}
after_refresh-Falls k p b a (some e) w h c = record {
  within = tt;
  steps = omega arith;
  called = omega arith;
}

execute-Falls : (k : ℕ) (b : Barrier) (g a : ℕ) → a < k → Falls k (entering g a) (execute b g a)
unfolding steps_left calls_left
execute-Falls k b g a w = elim (Bool-cases (ltb g b.generation)) [
  | inl h ↦ rw h (after_refresh-Falls k (entering g a) b a b.last_err w (omega arith) (omega arith))
  | inr h ↦ elim (Bool-cases b.in_flight) [
    | inl f ↦ simp (h, f) (record { within = w; steps = omega arith; called = omega arith })
    | inr f ↦ simp (h, f) (record { within = w; steps = omega arith; called = omega arith })
  ]
]

finish-Falls :
    (k : ℕ) (b : Barrier) (a : ℕ) (e : Option Error) → a < k → Falls k (refreshing a) (finish b a e)
unfolding steps_left calls_left
finish-Falls k b a e w = elim (Bool-cases (b.wait_chan == 0 || b.closed b.wait_chan)) [
  | inl h ↦ simp h (record { within = tt; steps = omega arith; called = omega arith })
  | inr h ↦ simp h (after_refresh-Falls k (refreshing a) _ a e w (omega arith) (omega arith))
]

transfer : {k : ℕ} {p : Pc} {x r : Result} → some x ≡ some r → Falls k p x → Falls k p r
transfer {k} {p} h = subst (Falls k p) (cc)

act-Falls :
    (cfg : ReauthConfig) (m : Move) (b : Barrier) (p : Pc) {r : Result}
    → act cfg m b p ≡ some r
    → IsWithin (retries cfg) p
    → Falls (retries cfg) p r
unfolding act steps_left calls_left
act-Falls cfg go b starting h w =
    transfer h (record { within = tt; steps = omega arith; called = omega arith })
act-Falls cfg (gets x) b (calling g a) h w = transfer h (loop_head-Falls cfg b g a x)
act-Falls cfg go b (entering g a) h w = transfer h (execute-Falls (retries cfg) b g a w)
act-Falls cfg (refreshed e) b (refreshing a) h w = transfer h (finish-Falls (retries cfg) b a e w)
act-Falls cfg go b (waiting c a) h w = elim (Bool-cases (b.closed c)) [
  | inl u ↦ transfer (rw u at h) (record { within = w; steps = omega arith; called = omega arith })
  | inr u ↦ absurd (ground arith)
]
act-Falls cfg (cancelled e) b (waiting c a) h w =
    transfer h (record { within = tt; steps = omega arith; called = omega arith })
act-Falls cfg go b (woken a) h w =
    transfer h
      (after_refresh-Falls (retries cfg) (woken a) b a b.last_err w (omega arith) (omega arith))
act-Falls cfg go b (resuming a) h w =
    transfer h (record { within = tt; steps = omega arith; called = omega arith })
act-Falls cfg _ b _ h w = absurd (cc)

record Bound (k n : ℕ) (es : List Event) (p : Pc) : Type 0 where
  within : IsWithin k p
  steps : n + steps_left k p ≤ 5 * k + 2
  called : count_calls es + calls_left k p ≤ k + 1

Turns-Bound :
    {cfg : ReauthConfig} {n : ℕ} {es : List Event} {p : Pc}
    → Turns cfg n es p
    → Bound (retries cfg) n es p
unfolding steps_left calls_left
Turns-Bound fresh = record { within = tt; steps = omega arith; called = omega arith }
Turns-Bound {cfg} (turn {n} {es} {p} m b r before h) =
    let rest = Turns-Bound before in
    let falls = act-Falls cfg m b p h rest.within in
    record {
      within = falls.within;
      steps = omega (arith, falls.steps, rest.steps);
      called = omega (arith, falls.called, rest.called, count_calls-append r.events es);
    }

-- Whatever the other requests do, a request takes at most five steps for each retry that is
-- configured and two more, and calls the wrapped client at most once more than there are retries,
-- of which there are one where none are configured.
pub Turns-bounds :
    {cfg : ReauthConfig} {n : ℕ} {es : List Event} {p : Pc}
    → Turns cfg n es p
    → (n ≤ 5 * retries cfg + 2) × (count_calls es ≤ retries cfg + 1)
Turns-bounds t = let b = Turns-Bound t in (omega (arith, b.steps), omega (arith, b.called))
