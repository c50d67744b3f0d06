-- ===== src/Reauth/Invariant.antt =====
-- middleware/reauth.go: the invariant of the barrier with all its requests, and that each step keeps it.
use aoni.Base.{
  ℕ, zero, suc, ◌+◌, ◌^◌, ◌≤◌, ◌<◌, ◌==◌, ◌≡◌, refl, sym, ap, ◌∙◌, inl, inr, Bool, true, false,
  ◌&&◌, List, [], ◌∷◌, ◌++◌, Option, none, some, arith, ltb, leb, if◌then◌else◌, Bool-cases, length,
  length-append,
}
use aoni.Reauth.{
  Error, ReauthConfig, Barrier, Pc, starting, calling, entering, refreshing, resuming, woken,
  waiting, returned, panicked, Event, calls, closes, refreshes, Result, after_refresh,
  begin_refresh, finish_refresh, System, update, initial, advanced, Step, pick, Reach, start, later,
}
use aoni.Reauth.Effects.{
  begun, is_refreshing, IsFresh, IsOpen, Effect, quiet, begins, finishes, act-Effect,
}

pub count_down : ℕ → List ℕ
count_down zero = []
count_down (suc n) = n ∷ count_down n

-- The refreshes that are in flight.
abbrev pub flights : Bool → ℕ
flights true = 1
flights false = 0

pub record Inv (b : Barrier) (pc : ℕ → Pc) (log : List ℕ) : Type 0 where
  pub counted : length log ≡ b.generation + flights b.in_flight
  pub ordered : log ≡ count_down (length log)
  pub chan : b.wait_chan ≡ length log
  pub shut : (c : ℕ) → b.closed c ≡ (ltb 0 c && leb c b.generation)
  pub fresh : (i : ℕ) → IsFresh b (pc i)
  pub busy : (i : ℕ) → is_refreshing (pc i) ≡ true → b.in_flight ≡ true
  pub alone : (i j : ℕ) → is_refreshing (pc i) ≡ true → is_refreshing (pc j) ≡ true → i ≡ j
  pub owned : b.in_flight ≡ true → (i : ℕ) × (is_refreshing (pc i) ≡ true)

abbrev pub IsOwner : (ℕ → Pc) → ℕ → Type 0
IsOwner pc i = is_refreshing (pc i) ≡ true

pub Inv-IsOpen :
    {b : Barrier} {pc : ℕ → Pc} {log : List ℕ} → Inv b pc log → b.in_flight ≡ true → IsOpen b
Inv-IsOpen {b} inv f =
    let up = ap flights f in
    (
      omega (arith, up, inv.chan, inv.counted),
      ground (arith, inv.shut b.wait_chan, up, inv.chan, inv.counted),
    )

is_refreshing-update :
    (pc : ℕ → Pc) (i : ℕ) (p : Pc) (j : ℕ)
    → is_refreshing (update pc i p j) ≡ (if i == j then is_refreshing p else is_refreshing (pc j))
is_refreshing-update pc i p j = elim (Bool-cases (i == j)) [ inl e ↦ rw e refl | inr e ↦ rw e refl ]

IsFresh-update :
    (b : Barrier) (pc : ℕ → Pc) (i : ℕ) (p : Pc) (j : ℕ)
    → IsFresh b p
    → IsFresh b (pc j)
    → IsFresh b (update pc i p j)
IsFresh-update b pc i p j f g = elim (Bool-cases (i == j)) [ inl e ↦ rw e f | inr e ↦ rw e g ]

module _ (pc : ℕ → Pc) (i : ℕ) (p : Pc) where
  IsOwner-frame :
      is_refreshing (pc i) ≡ false → (j : ℕ) × IsOwner pc j → (j : ℕ) × IsOwner (update pc i p) j
  IsOwner-frame h (j, o) = (j, ground (arith, is_refreshing-update pc i p j))

module _ (b : Barrier) (pc : ℕ → Pc) (log : List ℕ) (inv : Inv b pc log) (i : ℕ) (p : Pc) where
  Inv-quiet :
      is_refreshing (pc i) ≡ false
      → is_refreshing p ≡ false
      → IsFresh b p
      → Inv b (update pc i p) log
  Inv-quiet before after f = record {
    counted = inv.counted;
    ordered = inv.ordered;
    chan = inv.chan;
    shut = inv.shut;
    fresh = λ j. IsFresh-update b pc i p j f (inv.fresh j);
    busy = λ j h. ground (arith, is_refreshing-update pc i p j, inv.busy j);
    alone = λ j k h l.
        ground (arith, is_refreshing-update pc i p j, is_refreshing-update pc i p k, inv.alone j k);
    owned = λ h. IsOwner-frame pc i p before (inv.owned h);
  }

  begin_refresh-IsFresh : (q : Pc) → IsFresh b q → IsFresh (begin_refresh b) q
  begin_refresh-IsFresh starting h = tt
  begin_refresh-IsFresh (waiting c a) (lo, hi) = (lo, omega arith)
  begin_refresh-IsFresh (calling g a) h = h
  begin_refresh-IsFresh (entering g a) h = h
  begin_refresh-IsFresh panicked h = h
  begin_refresh-IsFresh _ h = tt

  Inv-begins :
      (g : ℕ)
      → b.in_flight ≡ false
      → is_refreshing p ≡ true
      → b.generation ≤ g
      → g ≤ b.generation
      → IsFresh (begin_refresh b) p
      → Inv (begin_refresh b) (update pc i p) (g ∷ log)
  unfolding count_down
  Inv-begins g idle o lo hi f =
      let down = ap flights idle in
      let count : length log ≡ g = omega (arith, inv.counted, down) in
      record {
        counted = omega (arith, count);
        ordered = rw (← inv.ordered) (ap (λ n. n ∷ log) (sym count));
        chan = omega (arith, inv.chan);
        shut = inv.shut;
        fresh = λ j.
            IsFresh-update (begin_refresh b) pc i p j f
              (begin_refresh-IsFresh (pc j) (inv.fresh j));
        busy = λ j h. refl;
        alone = λ j k h l. ground (
          arith,
          is_refreshing-update pc i p j,
          is_refreshing-update pc i p k,
          inv.busy j,
          inv.busy k,
        );
        owned = λ h. (i, ground (arith, is_refreshing-update pc i p i));
      }

  finish_refresh-IsFresh :
      (e : Option Error) (q : Pc)
      → (finish_refresh b e).generation ≡ b.generation + 1
      → IsFresh b q
      → IsFresh (finish_refresh b e) q
  finish_refresh-IsFresh e starting h f = tt
  finish_refresh-IsFresh e (waiting c a) h f = f
  finish_refresh-IsFresh e (calling g a) h f = omega (arith, h)
  finish_refresh-IsFresh e (entering g a) h f = omega (arith, h)
  finish_refresh-IsFresh e panicked h f = f
  finish_refresh-IsFresh e _ h f = tt

  Inv-finishes :
      (e : Option Error)
      → length log < 2 ^ 64
      → is_refreshing (pc i) ≡ true
      → is_refreshing p ≡ false
      → IsFresh (finish_refresh b e) p
      → Inv (finish_refresh b e) (update pc i p) log
  Inv-finishes e few o after f =
      let up = ap flights (inv.busy i o) in
      let next : (finish_refresh b e).generation ≡ b.generation + 1 =
        omega (arith, inv.counted, up) in
      record {
        counted = omega (arith, inv.counted, up);
        ordered = inv.ordered;
        chan = inv.chan;
        shut = λ c. ground (arith, inv.shut c, next, inv.chan, inv.counted, up);
        fresh = λ j.
            IsFresh-update (finish_refresh b e) pc i p j f
              (finish_refresh-IsFresh e (pc j) next (inv.fresh j));
        busy = λ j h. absurd (ground (arith, is_refreshing-update pc i p j, inv.alone i j));
        alone = λ j k h l.
            ground
              (arith, is_refreshing-update pc i p j, is_refreshing-update pc i p k, inv.alone j k);
        owned = λ h. absurd (cc);
      }

abbrev pub log_of : System → List ℕ
log_of s = begun s.events

begun-append : (xs ys : List Event) → begun (xs ++ ys) ≡ begun xs ++ begun ys
begun-append [] ys = refl
begun-append (calls ∷ xs) ys = begun-append xs ys
begun-append (closes ∷ xs) ys = begun-append xs ys
begun-append (refreshes g ∷ xs) ys = ap (◌∷◌ g) (begun-append xs ys)

begun-quiet : (xs ys : List Event) → begun xs ≡ [] → begun (xs ++ ys) ≡ begun ys
begun-quiet xs ys h = begun-append xs ys ∙ ap (λ l. l ++ begun ys) h

after_refresh-IsFresh :
    (b : Barrier) (a : ℕ) (e : Option Error)
    → (is_refreshing (after_refresh a e) ≡ false) × IsFresh b (after_refresh a e)
after_refresh-IsFresh b a none = (refl, tt)
after_refresh-IsFresh b a (some e) = (refl, tt)

refreshing-IsFresh : (b : Barrier) (p : Pc) → is_refreshing p ≡ true → IsFresh b p
refreshing-IsFresh b (refreshing a) h = tt
refreshing-IsFresh b starting h = absurd (cc)
refreshing-IsFresh b (calling g a) h = absurd (cc)
refreshing-IsFresh b (entering g a) h = absurd (cc)
refreshing-IsFresh b (resuming a) h = absurd (cc)
refreshing-IsFresh b (woken a) h = absurd (cc)
refreshing-IsFresh b (waiting c a) h = absurd (cc)
refreshing-IsFresh b (returned o) h = absurd (cc)
refreshing-IsFresh b panicked h = absurd (cc)

module _ (s : System) (i : ℕ) (r : Result) (inv : Inv s.barrier s.pc (log_of s)) where
  Effect-Inv :
      length (log_of s) < 2 ^ 64
      → Effect s.barrier (s.pc i) r
      → Inv (advanced s i r).barrier (advanced s i r).pc (log_of (advanced s i r))
  Effect-Inv few (quiet same silent before after f) =
      rw (same, begun-quiet r.events s.events silent)
        (Inv-quiet s.barrier s.pc (log_of s) inv i r.pc before after
          (f (Inv-IsOpen inv) (inv.fresh i)))
  Effect-Inv few (begins g now noted idle o le ge) =
      rw (now, noted)
        (Inv-begins s.barrier s.pc (log_of s) inv i r.pc g idle o le (ge (inv.fresh i))
          (refreshing-IsFresh (begin_refresh s.barrier) r.pc o))
  Effect-Inv few (finishes e a at silent now) =
      let o : IsOwner s.pc i = rw at refl in
      let (nb, np) = now (Inv-IsOpen inv (inv.busy i o)) in
      rw (nb, np, begun-quiet r.events s.events silent)
        (Inv-finishes s.barrier s.pc (log_of s) inv i (after_refresh a e) e few o
          (after_refresh-IsFresh (finish_refresh s.barrier e) a e).0
          (after_refresh-IsFresh (finish_refresh s.barrier e) a e).1)

grows : (xs ys : List Event) → length (begun ys) ≤ length (begun (xs ++ ys))
grows xs ys = omega (arith, ap length (begun-append xs ys), length-append (begun xs) (begun ys))

initial-Inv : Inv initial.barrier initial.pc (log_of initial)
unfolding count_down
initial-Inv = record {
  counted = refl;
  ordered = refl;
  chan = refl;
  shut = λ c. ground arith;
  fresh = λ i. tt;
  busy = λ i h. absurd (cc);
  alone = λ i j h k. absurd (cc);
  owned = λ h. absurd (cc);
}

Step-Inv :
    {cfg : ReauthConfig} {s t : System}
    → Step cfg s t
    → length (log_of t) < 2 ^ 64
    → (length (log_of s) < 2 ^ 64 → Inv s.barrier s.pc (log_of s))
    → Inv t.barrier t.pc (log_of t)
Step-Inv {cfg} {s} (pick i m r h) few inv =
    let before : length (log_of s) < 2 ^ 64 = omega (arith, few, grows r.events s.events) in
    Effect-Inv s i r (inv before) before (act-Effect cfg m s.barrier (s.pc i) h)

pub Reach-Inv :
    {cfg : ReauthConfig} {s : System}
    → Reach cfg s
    → length (log_of s) < 2 ^ 64
    → Inv s.barrier s.pc (log_of s)
Reach-Inv start few = initial-Inv
Reach-Inv (later r st) few = Step-Inv st few (Reach-Inv r)
