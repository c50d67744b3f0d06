-- ===== src/Base/Modular.antt =====
-- Rotations: numbers taken modulo the length of a pool.
use native.Mathlib.Nat.{mod-lt, mod-eq_of_lt, add-mod_right, mod-add-mod}
use Prim.Native.Nat.{ℕ, zero, suc, ◌+◌, ◌-◌, ◌%◌, ◌<◌}
use mathlib.Core.Path.{◌≡◌, refl, sym, ◌∙◌}
use mathlib.Core.Logic.{inl, inr}
use mathlib.Core.List.{List, [], ◌∷◌}
use mathlib.Core.Option.{some}
use native.Mathlib.Omega.{arith}
use aoni.Base.Tests.{leb, Bool-cases}
use aoni.Base.Lists.{length, get_elem?}

add-mod_cancel : (a n k j : ℕ) → (a % n + k) % n ≡ j → (a + k) % n ≡ j
add-mod_cancel a n k j h = sym (mod-add-mod a n k) ∙ h

-- Among n successive numbers there is one for each index.
pub reaches : (a n j : ℕ) → j < n → (t : ℕ) × (t < n) × ((a + t) % n ≡ j)
reaches a n j h =
    let start : a % n < n = mod-lt a (omega arith) in
    elim (Bool-cases (leb (a % n) j)) [
      | inl q ↦
          let e : a % n + (j - a % n) ≡ j = ground arith in
          (j - a % n, omega arith, add-mod_cancel a n _ j (rw e (mod-eq_of_lt h)))
      | inr q ↦
          let e : a % n + (j + n - a % n) ≡ j + n = omega arith in
          (
            j + n - a % n,
            ground arith,
            add-mod_cancel a n _ j (rw e (add-mod_right j n ∙ mod-eq_of_lt h)),
          )
    ]

pub at_index {ℓ} :
    {A : Type ℓ} (xs : List A) (i : ℕ) → i < length xs → (x : A) × (get_elem? xs i ≡ some x)
at_index [] i h = absurd (omega arith)
at_index (x ∷ xs) zero h = (x, refl)
at_index (x ∷ xs) (suc i) h = at_index xs i (omega arith)
