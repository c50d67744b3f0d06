-- ===== src/Base/Int.antt =====
-- Signed numbers, for the values of the source that may be negative.
use Prim.Native.Nat.{ℕ, suc, ◌-◌, ◌^◌}
use mathlib.Core.Bool.{Bool, true, false}
use aoni.Base.Tests.{ltb, leb, if◌then◌else◌}

-- `negsuc n` is -(n + 1).
pub data ℤ : Type 0 where
  pos : ℕ → ℤ
  negsuc : ℕ → ℤ

abbrev pub pos_part : ℤ → ℕ
pos_part (pos n) = n
pos_part (negsuc n) = 0

-- 0 < x
abbrev pub is_positive : ℤ → Bool
is_positive (pos n) = ltb 0 n
is_positive (negsuc n) = false

abbrev pub is_negative : ℤ → Bool
is_negative (pos n) = false
is_negative (negsuc n) = true

-- x ≤ n, for a natural number n.
abbrev pub leb_ℕ : ℤ → ℕ → Bool
leb_ℕ (pos m) n = leb m n
leb_ℕ (negsuc m) n = true

-- The int64 of the 64 bits of a number below 2 ^ 64.
abbrev pub to_int64 : ℕ → ℤ
to_int64 s = if ltb s (2 ^ 63) then pos s else negsuc (2 ^ 64 - suc s)
