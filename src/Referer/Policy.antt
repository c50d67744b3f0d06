-- ===== src/Referer/Policy.antt =====
-- pipeline/referer.go: what each policy lets out, and that the buffer spells the origin.
use aoni.Base.{
  Bool, ℕ, zero, suc, ◌+◌, ◌-◌, ◌≤◌, ◌≡◌, refl, sym, ap, ◌∙◌, inl, inr, true, false, [], ◌∷◌, ◌++◌,
  some, arith, leb, if◌then◌else◌, length, take, drop, length-append, take-append, Bool-cases,
  leb→le,
}
use mathlib.Core.List.{append_assoc}
use aoni.Base.Text.{Text, bytes}
use aoni.Referer.{
  RefererPolicy, strict_origin_when_cross_origin, no_referer_when_downgrade, no_referer, unsafe_url,
  Url, RefererState, is_policy, copy, buffer, through_buffer, origin_of, same_origin, is_downgrade,
  compute_referer, update_last_url,
}

take_long : (n : ℕ) (s : Text) → length s ≤ n → take n s ≡ s
take_long zero [] h = refl
take_long (suc n) [] h = refl
take_long zero (x ∷ s) h = absurd (omega arith)
take_long (suc n) (x ∷ s) h = ap (◌∷◌ x) (take_long n s (omega arith))

drop_past : (s z : Text) (k : ℕ) → drop (length s + k) (s ++ z) ≡ drop k z
drop_past [] z k = let e : 0 + k ≡ k = omega arith in ap (λ n. drop n z) e
drop_past (x ∷ s) z k =
    let e : suc (length s) + k ≡ suc (length s + k) = omega arith in rw e (drop_past s z k)

length-drop : (k : ℕ) (z : Text) → length (drop k z) ≡ length z - k
length-drop zero z = omega arith
length-drop (suc k) [] = omega arith
length-drop (suc k) (x ∷ z) = omega (arith, length-drop k z)

copy-append :
    (s t z : Text) (n : ℕ)
    → length s ≡ n
    → length t ≤ length z
    → copy (s ++ z) n t ≡ (s ++ t) ++ drop (length t) z
unfolding copy
copy-append s t z n e h = rw (sym e) (
    rw
      (
        take-append s z,
        drop_past s z (length t),
        take_long (length (s ++ z) - length s) t (omega (arith, length-append s z)),
        append_assoc s t (drop (length t) z),
      )
      refl)

-- As long as the text fits its 128 bytes, the array holds the same as the concatenation.
through_buffer_lem :
    (s h : Text)
    → length s + 4 + length h ≤ 128
    → through_buffer s h ≡ s ++ (bytes "://" ++ (h ++ bytes "/"))
through_buffer_lem s h fits =
    let z1 = drop (length s) buffer in
    let z2 = drop 3 z1 in
    let z3 = drop (length h) z2 in
    let r1 : length z1 ≡ 128 - length s = length-drop (length s) buffer in
    let r2 : length z2 ≡ length z1 - 3 = length-drop 3 z1 in
    let r3 : length z3 ≡ length z2 - length h = length-drop (length h) z2 in
    let a1 : length (s ++ bytes "://") ≡ length s + 3 = length-append s (bytes "://") in
    let a2 = length-append (s ++ bytes "://") h in
    let a3 = length-append ((s ++ bytes "://") ++ h) (bytes "/") in
    let w = ((s ++ bytes "://") ++ h) ++ bytes "/" in
    let e : length s + 4 + length h ≡ length w = omega arith in
    rw (copy-append [] s buffer 0 refl (omega arith)) (
      rw (copy-append s (bytes "://") z1 (length s) refl (omega arith)) (
        rw (copy-append (s ++ bytes "://") h z2 (length s + 3) a1 (omega arith)) (
          rw
            (copy-append ((s ++ bytes "://") ++ h) (bytes "/") z3 (length s + 3 + length h)
              (omega arith) (omega arith))
            (rw (e) (
              take-append w (drop 1 z3)
              ∙ append_assoc (s ++ bytes "://") h (bytes "/")
              ∙ append_assoc s (bytes "://") (h ++ bytes "/"))))))

-- The origin is spelled as scheme://host/ whatever its length.
origin_of_lem : (s h : Text) → origin_of s h ≡ s ++ (bytes "://" ++ (h ++ bytes "/"))
unfolding origin_of
origin_of_lem s h = elim (Bool-cases (leb (length s + 4 + length h) 128)) [
  | inl q ↦ rw q (through_buffer_lem s h (leb→le _ _ q))
  | inr q ↦ rw q refl
]

-- Under StrictOriginWhenCrossOrigin, a request to another origin, whatever fold of letters tells
-- origins apart, carries no Referer when it goes
-- from https to http, and the text scheme://host/ of the last URL otherwise, whatever the lengths
-- of the two: nothing else of that URL is shown.
pub compute_referer-cross_origin :
    (equal_fold : Text → Text → Bool) (last target : Url)
    → same_origin equal_fold last target ≡ false
    → compute_referer equal_fold
        (record { last_url = some last; policy = strict_origin_when_cross_origin })
        (some target)
      ≡ (if is_downgrade last target
          then []
          else last.scheme ++ (bytes "://" ++ (last.host ++ bytes "/")))
unfolding compute_referer
compute_referer-cross_origin equal_fold last target h =
    elim (Bool-cases (is_downgrade last target)) [
      | inl q ↦ rw q refl
      | inr q ↦ rw (q, h) (origin_of_lem last.scheme last.host)
    ]

empty_unless_unsafe :
    (equal_fold : Text → Text → Bool) (p : RefererPolicy) (last target : Url)
    → is_policy p unsafe_url ≡ false
    → is_downgrade last target ≡ true
    → compute_referer equal_fold (record { last_url = some last; policy = p }) (some target) ≡ []
unfolding compute_referer
empty_unless_unsafe equal_fold strict_origin_when_cross_origin last target h d = rw d refl
empty_unless_unsafe equal_fold no_referer_when_downgrade last target h d = rw d refl
empty_unless_unsafe equal_fold no_referer last target h d = refl
empty_unless_unsafe equal_fold unsafe_url last target h d = ground arith

-- The Referer of a request right after a completed one is empty when the policy is not UnsafeURL,
-- the completed one was https and the request is http.
compute_referer-downgrade :
    (equal_fold : Text → Text → Bool) (a : RefererState) (last target : Url)
    → is_policy a.policy unsafe_url ≡ false
    → is_downgrade last target ≡ true
    → compute_referer equal_fold (update_last_url (some last) a) (some target) ≡ []
unfolding update_last_url
compute_referer-downgrade equal_fold a last target p d =
    empty_unless_unsafe equal_fold a.policy last target p d
