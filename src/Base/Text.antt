-- ===== src/Base/Text.antt =====
-- Text as a list of bytes, and what the source uses of the package strings, for ASCII.
use Prim.Native.Nat.{ℕ, ◌+◌}
use Prim.Native.Char.{code}
use Prim.Native.String.{String}
use mathlib.Core.Path.{◌≡◌, refl, sym, ap, ap₂, ◌∙◌}
use mathlib.Core.Logic.{◌↔◌}
use mathlib.Core.Bool.{Bool, true, false, ◌&&◌, ◌||◌}
use mathlib.Core.List.{List, [], ◌∷◌, ◌++◌, map, reverse, reverse-reverse, reverse-append}
use native.Mathlib.Omega.{arith}
use aoni.Base.Tests.{leb, ◌==◌, if◌then◌else◌, ==_iff, ==_refl, and_parts}

abbrev pub Text : Type 0
Text = List ℕ

-- A literal of the source.
abbrev pub bytes : String → Text
bytes String.[] = []
bytes (String.◌∷◌ c rest) = code c ∷ bytes rest

abbrev pub text_eq : Text → Text → Bool
text_eq [] [] = true
text_eq (a ∷ s) (b ∷ t) = (a == b) && text_eq s t
text_eq _ _ = false

pub text_eq_refl : (s : Text) → text_eq s s ≡ true
text_eq_refl [] = refl
text_eq_refl (a ∷ s) = rw (==_refl a) (text_eq_refl s)

pub eq_of_text_eq : (s t : Text) → text_eq s t ≡ true → s ≡ t
eq_of_text_eq [] [] h = refl
eq_of_text_eq [] (b ∷ t) h = cc
eq_of_text_eq (a ∷ s) [] h = cc
eq_of_text_eq (a ∷ s) (b ∷ t) h =
    let (e, r) = and_parts (a == b) (text_eq s t) h in
    ap₂ ◌∷◌ ((==_iff a b).0 e) (eq_of_text_eq s t r)

pub text_eq_iff : (s t : Text) → (text_eq s t ≡ true) ↔ (s ≡ t)
text_eq_iff s t = (eq_of_text_eq s t, λ e. rw e (text_eq_refl t))

abbrev pub is_empty : Text → Bool
is_empty [] = true
is_empty (a ∷ s) = false

-- strings.HasPrefix and strings.HasSuffix.
abbrev pub has_prefix : Text → Text → Bool
has_prefix s [] = true
has_prefix [] (b ∷ t) = false
has_prefix (a ∷ s) (b ∷ t) = (a == b) && has_prefix s t

abbrev pub has_suffix : Text → Text → Bool
has_suffix s t = has_prefix (reverse s) (reverse t)

-- strings.ToLower, byte by byte.
abbrev pub lower_byte : ℕ → ℕ
lower_byte c = if leb 65 c && leb c 90 then c + 32 else c

abbrev pub to_lower : Text → Text
to_lower s = map lower_byte s

abbrev pub is_space : ℕ → Bool
is_space c = (c == 32) || (leb 9 c && leb c 13)

abbrev pub trim_left : Text → Text
trim_left [] = []
trim_left (c ∷ s) = elim (is_space c) [ true ↦ trim_left s | false ↦ c ∷ s ]

abbrev pub trim_space : Text → Text
trim_space s = reverse (trim_left (reverse (trim_left s)))

-- strings.TrimSuffix of one byte.
abbrev pub drop_head : ℕ → Text → Text
drop_head c [] = []
drop_head c (a ∷ s) = if a == c then s else a ∷ s

abbrev pub trim_suffix_byte : ℕ → Text → Text
trim_suffix_byte c s = reverse (drop_head c (reverse s))

pub append_of_has_prefix : (s t : Text) → has_prefix s t ≡ true → (r : Text) × (s ≡ t ++ r)
append_of_has_prefix s [] h = (s, refl)
append_of_has_prefix [] (b ∷ t) h = cc
append_of_has_prefix (a ∷ s) (b ∷ t) h =
    let (e, k) = and_parts (a == b) (has_prefix s t) h in
    let (r, q) = append_of_has_prefix s t k in (r, ap₂ ◌∷◌ ((==_iff a b).0 e) q)

pub has_prefix-append : (t r : Text) → has_prefix (t ++ r) t ≡ true
has_prefix-append [] r = ground arith
has_prefix-append (b ∷ t) r = rw (==_refl b) (has_prefix-append t r)

pub append_of_has_suffix : (s t : Text) → has_suffix s t ≡ true → (r : Text) × (s ≡ r ++ t)
append_of_has_suffix s t h =
    let (r, e) = append_of_has_prefix (reverse s) (reverse t) h in
    (
      reverse r,
      sym (reverse-reverse s)
          ∙ ap reverse e
          ∙ reverse-append (reverse t) r
          ∙ ap (◌++◌ (reverse r)) (reverse-reverse t),
    )

pub has_suffix-append : (r t : Text) → has_suffix (r ++ t) t ≡ true
has_suffix-append r t = rw (reverse-append r t) (has_prefix-append (reverse t) (reverse r))
