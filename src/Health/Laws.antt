-- ===== src/Health/Laws.antt =====
-- The tracker over any sequence of reports.
use aoni.Base.{
  ℕ, ◌+◌, ◌^◌, ◌≤◌, ◌<◌, ◌≡◌, refl, ◌∙◌, ◌↔◌, ◌⊎◌, inl, inr, Bool, true, false, ◌||◌, List, [], ◌∷◌,
  ◌++◌, Option, none, some, arith, ltb, leb, length,
}
use aoni.Base.Int.{ℤ, pos, negsuc}
use aoni.Health.{
  Tracker, unhealthy, Notice, marked, recovered, Event, fails, succeeds, resets, mark_failed,
  is_available, status, cooldown_remaining, step, run,
}

-- An endpoint that is not flagged has had fewer failures in a row than the limit.
pub record IsConsistent (t : Tracker) : Type 0 where
  pub bounded : t.fail_count < 2 ^ 32
  pub flagged : (t.is_unhealthy ≡ true) ⊎ (t.fail_count < t.max_fails)

step-max_fails : (e : Event) (t : Tracker) → (step e t).0.max_fails ≡ t.max_fails
unfolding step
step-max_fails (fails now) t = ground arith
step-max_fails succeeds t = refl
step-max_fails resets t = refl

step-IsConsistent :
    (e : Event) (t : Tracker) → 0 < t.max_fails → IsConsistent t → IsConsistent (step e t).0
unfolding step
step-IsConsistent (fails now) t h c = record { bounded = ground arith; flagged = ground arith }
step-IsConsistent succeeds t h c = record { bounded = omega arith; flagged = inr h }
step-IsConsistent resets t h c = record { bounded = omega arith; flagged = inr h }

-- After any history, an endpoint that is not flagged as unhealthy has recorded fewer consecutive
-- failures than its limit, and the counter fits 32 bits, if this held before and the limit is not 0.
pub run-IsConsistent :
    (es : List Event) (t : Tracker) → 0 < t.max_fails → IsConsistent t → IsConsistent (run es t).0
unfolding run
run-IsConsistent [] t h c = c
run-IsConsistent (e ∷ es) t h c =
    run-IsConsistent es (step e t).0 (omega (arith, step-max_fails e t)) (step-IsConsistent e t h c)

-- What an observer of the callbacks takes the flag to be; `none` if a notice does not fit.
abbrev pub follow : Bool → List Notice → Option Bool
follow flag [] = some flag
follow flag (marked _ _ _ ∷ ns) = elim flag [ true ↦ none | false ↦ follow true ns ]
follow flag (recovered _ ∷ ns) = elim flag [ true ↦ follow false ns | false ↦ none ]

follow-append :
    (b c : Bool) (xs ys : List Notice) → follow b xs ≡ some c → follow b (xs ++ ys) ≡ follow c ys
follow-append b c [] ys h = ground arith
follow-append true c (marked _ _ _ ∷ xs) ys h = cc
follow-append false c (marked _ _ _ ∷ xs) ys h = follow-append true c xs ys h
follow-append true c (recovered _ ∷ xs) ys h = follow-append false c xs ys h
follow-append false c (recovered _ ∷ xs) ys h = cc

abbrev HasCallbacks : Tracker → Type 0
HasCallbacks t = (t.on_unhealthy ≡ true) × (t.on_recovered ≡ true)

step-HasCallbacks : (e : Event) (t : Tracker) → HasCallbacks t → HasCallbacks (step e t).0
unfolding step
step-HasCallbacks (fails now) t h = (ground arith, ground arith)
step-HasCallbacks succeeds t h = h
step-HasCallbacks resets t h = h

follow-step :
    (e : Event) (t : Tracker)
    → HasCallbacks t
    → follow t.is_unhealthy (step e t).1 ≡ some (step e t).0.is_unhealthy
unfolding step
follow-step (fails now) t h = ground arith
follow-step succeeds t h = ground arith
follow-step resets t h = ground arith

-- The calls of the two callbacks alternate and follow the flag: whoever reads them alone ends with
-- the flag of the tracker, after any history, if both callbacks are set.
follow-run :
    (es : List Event) (t : Tracker)
    → t.on_unhealthy ≡ true
    → t.on_recovered ≡ true
    → follow t.is_unhealthy (run es t).1 ≡ some (run es t).0.is_unhealthy
unfolding run
follow-run [] t h k = refl
follow-run (e ∷ es) t h k =
    let now = step-HasCallbacks e t (h, k) in
    follow-append t.is_unhealthy (step e t).0.is_unhealthy (step e t).1 (run es (step e t).0).1
      (follow-step e t (h, k))
    ∙ follow-run es (step e t).0 now.0 now.1

-- An endpoint is refused traffic exactly while its status is unhealthy, and exactly while some of
-- its cooldown remains, if both clocks agree.
is_available_iff :
    (now : ℕ) (t : Tracker)
    → ((is_available now t ≡ false) ↔ (status now t ≡ unhealthy))
      × ((is_available now t ≡ false) ↔ (0 < cooldown_remaining now t))
unfolding is_available status cooldown_remaining
is_available_iff now t = (
  (λ h. ground arith, λ h. ground arith),
  (λ h. refuses t.recovered_at refl h, λ h. remains t.recovered_at refl h),
)
  where
    refuses :
        (r : ℤ) → t.recovered_at ≡ r → is_available now t ≡ false → 0 < cooldown_remaining now t
    refuses (pos r) e h = ground arith
    refuses (negsuc r) e h = ground arith

    remains :
        (r : ℤ) → t.recovered_at ≡ r → 0 < cooldown_remaining now t → is_available now t ≡ false
    remains (pos r) e h = ground arith
    remains (negsuc r) e h = ground arith

abbrev pub failures : List ℕ → Tracker → Tracker
failures [] t = t
failures (now ∷ ts) t = failures ts (mark_failed now t).0

-- The tracker below the limit: it counts, and keeps all else.
record HasCounted (n : ℕ) (t u : Tracker) : Type 0 where
  count : u.fail_count ≡ t.fail_count + n
  limit : u.max_fails ≡ t.max_fails
  cooldown : u.retry_after ≡ t.retry_after
  flag : (u.is_unhealthy ≡ t.is_unhealthy) ⊎ (t.max_fails ≤ t.fail_count + n)

mark_failed-HasCounted :
    (now : ℕ) (t : Tracker) → t.fail_count + 1 < 2 ^ 32 → HasCounted 1 t (mark_failed now t).0
unfolding mark_failed
mark_failed-HasCounted now t h = record {
  count = ground arith;
  limit = ground arith;
  cooldown = ground arith;
  flag = ground arith;
}

failures-HasCounted :
    (ts : List ℕ) (t : Tracker)
    → t.fail_count + length ts < 2 ^ 32
    → HasCounted (length ts) t (failures ts t)
failures-HasCounted [] t h = record {
  count = omega arith;
  limit = refl;
  cooldown = refl;
  flag = inl refl;
}
failures-HasCounted (now ∷ ts) t h =
    let one = mark_failed-HasCounted now t (omega arith) in
    let more = failures-HasCounted ts (mark_failed now t).0 (omega arith) in
    record {
      count = omega arith;
      limit = more.limit ∙ one.limit;
      cooldown = more.cooldown ∙ one.cooldown;
      flag = ground arith;
    }

-- An endpoint that was healthy with a clean counter is available after any run of failures, of which
-- the last came at `last`, exactly while the failures are fewer than the limit or its cooldown,
-- counted from the last one, has passed; the failures fit 32 bits and the deadline 63.
pub is_available-failures :
    (ts : List ℕ) (last now : ℕ) (t : Tracker)
    → t.fail_count ≡ 0
    → t.is_unhealthy ≡ false
    → length ts + 1 < 2 ^ 32
    → last + t.retry_after < 2 ^ 63
    → is_available now (mark_failed last (failures ts t)).0
      ≡ (ltb (length ts + 1) t.max_fails || leb (last + t.retry_after) now)
unfolding is_available mark_failed
is_available-failures ts last now t z u h k =
    let c = failures-HasCounted ts t (omega arith) in ground arith
