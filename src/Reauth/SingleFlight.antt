-- ===== src/Reauth/SingleFlight.antt =====
-- middleware/reauth.go: what holds of the barrier in every state that the requests can reach.
use aoni.Base.{
  ℕ, ◌+◌, ◌^◌, ◌≤◌, ◌<◌, ◌≡◌, refl, ap, ◌⊎◌, inl, inr, true, false, Option, some, arith, Bool-cases,
  length,
}
use mathlib.Core.Path.{subst}
use mathlib.Core.Logic.{◌≢◌}
use aoni.Reauth.{
  Error, ReauthConfig, Barrier, Pc, starting, calling, entering, refreshing, resuming, woken,
  waiting, returned, panicked, refreshed, Result, act, finish, System, Reach,
}
use aoni.Reauth.Effects.{begun, is_refreshing, IsFresh, IsOpen}
use aoni.Reauth.Invariant.{count_down, flights, Inv, log_of, IsOwner, Inv-IsOpen, Reach-Inv}

-- In every state that the requests can reach, as long as fewer than 2 ^ 64 refreshes were begun, the
-- refreshes were begun for the generations 0, 1, 2 and so on, each of them once; at most one request
-- is in Refresh, and it is counted by the barrier as in flight; and no request has panicked by closing
-- a channel twice.
pub Reach-SingleFlight :
    {cfg : ReauthConfig} {s : System}
    → Reach cfg s
    → length (begun s.events) < 2 ^ 64
    → (begun s.events ≡ count_down (length (begun s.events)))
      × ((i j : ℕ) → is_refreshing (s.pc i) ≡ true → is_refreshing (s.pc j) ≡ true → i ≡ j)
      × (length (begun s.events) ≡ s.barrier.generation + flights s.barrier.in_flight)
      × ((i : ℕ) → s.pc i ≢ panicked)
Reach-SingleFlight {s} r few =
    let inv = Reach-Inv r few in
    (inv.ordered, inv.alone, inv.counted, λ i h. subst (IsFresh s.barrier) h (inv.fresh i))

IsFresh-waiting :
    (b : Barrier) {p : Pc} (c a : ℕ) → p ≡ waiting c a → IsFresh b p → (0 < c) × (c ≤ b.wait_chan)
IsFresh-waiting b c a h f = subst (IsFresh b) h f

-- The refresh in flight closes its channel, whatever it returns.
abbrev pub Closes : ReauthConfig → Barrier → Pc → ℕ → Type 0
Closes cfg b p c =
    (e : Option Error)
    → (r : Result) × (act cfg (refreshed e) b p ≡ some r) × (r.barrier.closed c ≡ true)

refreshing-Closes :
    (cfg : ReauthConfig) (b : Barrier) (p : Pc)
    → is_refreshing p ≡ true
    → IsOpen b
    → Closes cfg b p b.wait_chan
unfolding act
refreshing-Closes cfg b (refreshing a) o (some_chan, open_chan) e =
    (finish b a e, refl, ground arith)
refreshing-Closes cfg b starting o w e = absurd (cc)
refreshing-Closes cfg b (calling g a) o w e = absurd (cc)
refreshing-Closes cfg b (entering g a) o w e = absurd (cc)
refreshing-Closes cfg b (resuming a) o w e = absurd (cc)
refreshing-Closes cfg b (woken a) o w e = absurd (cc)
refreshing-Closes cfg b (waiting c a) o w e = absurd (cc)
refreshing-Closes cfg b (returned x) o w e = absurd (cc)
refreshing-Closes cfg b panicked o w e = absurd (cc)

waiting-open :
    (cfg : ReauthConfig) (s : System) (inv : Inv s.barrier s.pc (log_of s)) (c : ℕ)
    → 0 < c
    → c ≤ s.barrier.wait_chan
    → s.barrier.closed c ≡ false
    → (j : ℕ) × IsOwner s.pc j × Closes cfg s.barrier (s.pc j) c
waiting-open cfg s inv c lo hi e =
    let busy : s.barrier.in_flight ≡ true =
      ground (arith, inv.shut c, inv.chan, inv.counted, Bool-cases s.barrier.in_flight) in
    let same : s.barrier.wait_chan ≡ c =
      ground (arith, inv.shut c, inv.chan, inv.counted, ap flights busy) in
    let (j, o) = inv.owned busy in
    (
      j,
      o,
      subst (Closes cfg s.barrier (s.pc j)) same
          (refreshing-Closes cfg s.barrier (s.pc j) o (Inv-IsOpen inv busy)),
    )

-- In every state that the requests can reach, as long as fewer than 2 ^ 64 refreshes were begun, a
-- request that waits can go on, or there is a request in Refresh which, as soon as Refresh returns,
-- with an error or without, closes the channel for which the first one waits.
pub Reach-waiting :
    {cfg : ReauthConfig} {s : System}
    → Reach cfg s
    → length (begun s.events) < 2 ^ 64
    → (i c a : ℕ) → s.pc i ≡ waiting c a
    → (s.barrier.closed c ≡ true)
      ⊎ ((j : ℕ) × (is_refreshing (s.pc j) ≡ true) × Closes cfg s.barrier (s.pc j) c)
Reach-waiting {cfg} {s} r few i c a h =
    let inv = Reach-Inv r few in
    let (lo, hi) = IsFresh-waiting s.barrier c a h (inv.fresh i) in
    elim (Bool-cases (s.barrier.closed c)) [
      | inl e ↦ inl e
      | inr e ↦ inr (waiting-open cfg s inv c lo hi e)
    ]
