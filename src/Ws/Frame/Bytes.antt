-- ===== src/Ws/Frame/Bytes.antt =====
-- The bits of a frame's first two bytes, the numbers that follow, and reads of known length.
use Prim.Native.Nat.{bit_and}
use aoni.Base.{
  ℕ, zero, suc, ◌<◌, ◌^◌, ◌≡◌, refl, inl, inr, Bool, true, false, not, ◌&&◌, [], ◌∷◌, ◌++◌, arith,
  ◌==◌, if◌then◌else◌, length, ==_iff, and_parts,
}
use aoni.Base.Text.{Text}
use aoni.Ws.Frame.{ok, Result-cases, put_be, be_value, read_full, first_byte, second_byte}

-- Does the test hold of the k numbers before k?
tested : (ℕ → Bool) → ℕ → Bool
tested test zero = true
tested test (suc k) = tested test k && test k

below_tested :
    (test : ℕ → Bool) (bound x : ℕ) → x < bound → tested test bound ≡ true → test x ≡ true
unfolding tested
below_tested test zero x small all = absurd (omega arith)
below_tested test (suc k) x small all = ground (arith, λ (s : x < k). below_tested test k x s)

abbrev first_bits : Bool → ℕ → Bool
first_bits compress opcode =
    (bit_and (first_byte opcode compress) 0x30 == 0)
    && ((bit_and (first_byte opcode compress) 0x0f == opcode)
        && (not (bit_and (first_byte opcode compress) 0x80 == 0)
            && (bit_and (first_byte opcode compress) 0x40 == (if compress then 0x40 else 0))))

first_bits_table : (compress : Bool) → tested (first_bits compress) 16 ≡ true
unfolding tested
first_bits_table true = refl
first_bits_table false = refl

pub first_byte_bits :
    (opcode : ℕ) (compress : Bool)
    → opcode < 16
    → (bit_and (first_byte opcode compress) 0x30 ≡ 0)
      × (bit_and (first_byte opcode compress) 0x0f ≡ opcode)
      × ((bit_and (first_byte opcode compress) 0x80 == 0) ≡ false)
      × (bit_and (first_byte opcode compress) 0x40 ≡ (if compress then 0x40 else 0))
first_byte_bits opcode compress h =
    let (a, r) =
      and_parts _ _ (below_tested (first_bits compress) 16 opcode h (first_bits_table compress)) in
    let (b, r') = and_parts _ _ r in
    let (c, d) = and_parts (not (bit_and (first_byte opcode compress) 0x80 == 0)) _ r' in
    ((==_iff _ _).0 a, (==_iff _ _).0 b, ground arith, (==_iff _ _).0 d)

abbrev second_bits : Bool → ℕ → Bool
second_bits masked len =
    (bit_and (second_byte len masked) 0x7f == len)
    && (bit_and (second_byte len masked) 0x80 == (if masked then 0x80 else 0))

second_bits_table : (masked : Bool) → tested (second_bits masked) 128 ≡ true
unfolding tested
second_bits_table true = refl
second_bits_table false = refl

pub second_byte_bits :
    (len : ℕ) (masked : Bool)
    → len < 128
    → (bit_and (second_byte len masked) 0x7f ≡ len)
      × (bit_and (second_byte len masked) 0x80 ≡ (if masked then 0x80 else 0))
second_byte_bits len masked h =
    let (a, b) =
      and_parts _ _ (below_tested (second_bits masked) 128 len h (second_bits_table masked)) in
    ((==_iff _ _).0 a, (==_iff _ _).0 b)

pub read_full-append : (s t : Text) → read_full (length s) (s ++ t) ≡ ok (s, t)
unfolding read_full
read_full-append [] t = refl
read_full-append (b ∷ s) t = rw (read_full-append s t)

pub read_full_exact : (n : ℕ) (s t : Text) → length s ≡ n → read_full n (s ++ t) ≡ ok (s, t)
read_full_exact n s t h = rw (← h) (read_full-append s t)

pub read_full-length :
    (n : ℕ) (s p t : Text) → read_full n s ≡ ok (p, t) → (length p ≡ n) × (s ≡ p ++ t)
unfolding read_full
read_full-length zero s p t h = (ground arith, ground arith)
read_full-length (suc n) [] p t h = cc
read_full-length (suc n) (b ∷ s) p t h = elim (Result-cases (read_full n s)) [
  | inl (e, k) ↦ ground arith
  | inr (r, k) ↦ ground (arith, read_full-length n s r.0 r.1 k)
]

pub be_value-put_be_two : (n : ℕ) → n < 2 ^ 16 → be_value (put_be 2 n) ≡ n
be_value-put_be_two n h = omega arith

pub be_value-put_be_eight : (n : ℕ) → n < 2 ^ 64 → be_value (put_be 8 n) ≡ n
be_value-put_be_eight n h = omega arith
