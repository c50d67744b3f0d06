-- ===== src/Base/Foundation.antt =====
-- What the program uses of the packages generic and silicon/bytesconv of
-- github.com/lemon4ksan/foundation, which are not in the repository: Coalesce returns its first
-- argument that is not the zero value, Ternary chooses by a condition, and EqualFoldASCII compares
-- texts without regard to the case of ASCII letters.
use Prim.Native.Nat.{ℕ, ◌<◌}
use mathlib.Core.Path.{◌≡◌}
use mathlib.Core.Bool.{Bool}
use aoni.Base.Tests.{if◌then◌else◌}
use aoni.Base.Text.{Text, is_empty, text_eq, to_lower}

pub record Foundation : Type 0 where
  pub coalesce : ℕ → ℕ → ℕ
  pub coalesce_zero : (d : ℕ) → coalesce 0 d ≡ d
  pub coalesce_pos : (a d : ℕ) → 0 < a → coalesce a d ≡ a
  pub coalesce_text : Text → Text → Text
  pub coalesce_text_lem : (a d : Text) → coalesce_text a d ≡ (if is_empty a then d else a)
  pub ternary : Bool → Text → Text → Text
  pub ternary_lem : (b : Bool) (a d : Text) → ternary b a d ≡ (if b then a else d)
  pub equal_fold : Text → Text → Bool
  pub equal_fold_lem : (a b : Text) → equal_fold a b ≡ text_eq (to_lower a) (to_lower b)
