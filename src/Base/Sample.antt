-- ===== src/Base/Sample.antt =====
-- A concrete instance of the foundation packages, for the tests.
use Prim.Native.Nat.{ℕ, zero, suc, ◌<◌}
use mathlib.Core.Path.{◌≡◌, refl}
use native.Mathlib.Omega.{arith}
use aoni.Base.Tests.{if◌then◌else◌}
use aoni.Base.Text.{is_empty, text_eq, to_lower}
use aoni.Base.Foundation.{Foundation}

abbrev pub pick : ℕ → ℕ → ℕ
pick zero d = d
pick (suc a) d = suc a

pub pick_pos : (a d : ℕ) → 0 < a → pick a d ≡ a
pick_pos a d h = ground arith

abbrev pub library : Foundation
library = record {
  coalesce = pick;
  coalesce_zero = λ d. refl;
  coalesce_pos = pick_pos;
  coalesce_text = λ a d. if is_empty a then d else a;
  coalesce_text_lem = λ a d. refl;
  ternary = λ b a d. if b then a else d;
  ternary_lem = λ b a d. refl;
  equal_fold = λ a b. text_eq (to_lower a) (to_lower b);
  equal_fold_lem = λ a b. refl;
}
