-- ===== src/Cookie/Rules/Matching.antt =====
-- Path and domain matching, described by how the texts are composed.
use mathlib.Core.List.{append_assoc}
use aoni.Base.{
  ℕ, suc, ◌-◌, ◌<◌, ◌≡◌, refl, sym, ◌∙◌, ap, ◌↔◌, ◌⊎◌, inl, inr, Bool, true, false, ◌&&◌, ◌||◌, [],
  ◌∷◌, ◌++◌, arith, ltb, length, length-append, get_elem?, Bool-cases, ==_iff,
}
use aoni.Base.Text.{
  Text, bytes, text_eq, text_eq_iff, has_prefix, has_suffix, to_lower, append_of_has_prefix,
  has_prefix-append, append_of_has_suffix, has_suffix-append,
}
use aoni.Cookie.Rules.{or_root, byte_is, path_match, domain_match}

-- The same path, or a path under the cookie's: the cookie's path ends in a slash, or a slash follows
-- it.
abbrev pub IsUnder : Text → Text → Type 0
IsUnder r c =
    (r ≡ c)
    ⊎ ((x y : Text) × (c ≡ x ++ b'/' ∷ []) × (r ≡ c ++ y))
    ⊎ ((y : Text) × (r ≡ c ++ b'/' ∷ y))

-- The same host name, or labels and a dot before the cookie's domain.
abbrev pub IsWithin : Text → Text → Type 0
IsWithin h d = (x : Text) × (h ≡ x ++ b'.' ∷ d)

next_byte : (c y : Text) → get_elem? (c ++ y) (length c) ≡ get_elem? y 0
next_byte [] y = refl
next_byte (a ∷ c) y = next_byte c y

cons_of_byte_is : (y : Text) (b : ℕ) → byte_is (get_elem? y 0) b ≡ true → (z : Text) × (y ≡ b ∷ z)
cons_of_byte_is [] b h = cc
cons_of_byte_is (a ∷ y) b h = (y, ap (λ n. n ∷ y) ((==_iff a b).0 h))

path_match_sound :
    (r c : Text)
    → (text_eq r c
        || (has_prefix r c
            && (has_suffix c (bytes "/")
                || (ltb (length c) (length r) && byte_is (get_elem? r (length c)) b'/'))))
      ≡ true
    → IsUnder r c
path_match_sound r c h = elim (Bool-cases (text_eq r c)) [
  | inl e ↦ inl ((text_eq_iff r c).0 e)
  | inr e ↦
      let (y, q) = append_of_has_prefix r c (ground arith) in
      elim (Bool-cases (has_suffix c (bytes "/"))) [
        | inl s ↦ let (x, p) = append_of_has_suffix c (bytes "/") s in inr (inl (x, y, p, q))
        | inr s ↦
            let (z, p) =
              cons_of_byte_is y b'/'
                (ground (arith, ap (λ t. get_elem? t (length c)) q, next_byte c y)) in
            inr (inr (z, q ∙ ap (◌++◌ c) p))
      ]
]

or_true : (b : Bool) → (b || true) ≡ true
or_true true = refl
or_true false = refl

-- The test of `path_match`, at the two paths with the empty one read as the root.
abbrev path_test : Text → Text → Bool
path_test r c =
    text_eq r c
    || (has_prefix r c
        && (has_suffix c (bytes "/")
            || (ltb (length c) (length r) && byte_is (get_elem? r (length c)) b'/')))

path_match_complete : (r c : Text) → IsUnder r c → path_test r c ≡ true
path_match_complete r c (inl e) = ground (arith, text_eq_iff r c)
path_match_complete r c (inr (inl (x, y, p, q))) =
    let a : has_prefix r c ≡ true = rw q (has_prefix-append c y) in
    let b : has_suffix c (bytes "/") ≡ true = rw p (has_suffix-append x (bytes "/")) in
    rw (a, b) (or_true (text_eq r c))
path_match_complete r c (inr (inr (y, q))) =
    let a : has_prefix r c ≡ true = rw q (has_prefix-append c (b'/' ∷ y)) in
    ground (
      arith,
      ap length q,
      length-append c (b'/' ∷ y),
      ap (λ t. get_elem? t (length c)) q,
      next_byte c (b'/' ∷ y),
    )

-- A request path matches the path of a cookie exactly when, the empty path read as the root, it is
-- the same, or goes on behind a path that ends in a slash, or goes on with a slash.
path_match_iff :
    (req_path cookie_path : Text)
    → (path_match req_path cookie_path ≡ true) ↔ IsUnder (or_root req_path) (or_root cookie_path)
unfolding path_match
path_match_iff req_path cookie_path = (
  path_match_sound (or_root req_path) (or_root cookie_path),
  path_match_complete (or_root req_path) (or_root cookie_path),
)

IsUnder-trans : (a b c : Text) → IsUnder a b → IsUnder b c → IsUnder a c
IsUnder-trans a b c (inl e) k = rw e k
IsUnder-trans a b c (inr (inl (x, y, p, q))) (inl e) =
    inr (inl (x, y, sym e ∙ p, q ∙ ap (λ t. t ++ y) e))
IsUnder-trans a b c (inr (inl (x, y, p, q))) (inr (inl (u, v, s, t))) =
    inr (inl (u, v ++ y, s, q ∙ ap (λ w. w ++ y) t ∙ append_assoc c v y))
IsUnder-trans a b c (inr (inl (x, y, p, q))) (inr (inr (v, t))) =
    inr (inr (v ++ y, q ∙ ap (λ w. w ++ y) t ∙ append_assoc c (b'/' ∷ v) y))
IsUnder-trans a b c (inr (inr (y, q))) (inl e) = inr (inr (y, q ∙ ap (λ t. t ++ b'/' ∷ y) e))
IsUnder-trans a b c (inr (inr (y, q))) (inr (inl (u, v, s, t))) =
    inr (inl (u, v ++ b'/' ∷ y, s, q ∙ ap (λ w. w ++ b'/' ∷ y) t ∙ append_assoc c v (b'/' ∷ y)))
IsUnder-trans a b c (inr (inr (y, q))) (inr (inr (v, t))) =
    inr (inr (v ++ b'/' ∷ y, q ∙ ap (λ w. w ++ b'/' ∷ y) t ∙ append_assoc c (b'/' ∷ v) (b'/' ∷ y)))

-- Path matching is transitive: a path under a path that a cookie covers is covered by the cookie.
path_match_trans :
    (a b c : Text) → path_match a b ≡ true → path_match b c ≡ true → path_match a c ≡ true
path_match_trans a b c h k = (path_match_iff a c).1 (
    IsUnder-trans (or_root a) (or_root b) (or_root c) ((path_match_iff a b).0 h)
      ((path_match_iff b c).0 k))

next_last :
    (a c : ℕ) (y d : Text) (b : ℕ)
    → byte_is (get_elem? (a ∷ c ∷ (y ++ d)) (length (a ∷ c ∷ y) - 1)) b ≡ true
    → byte_is (get_elem? (c ∷ (y ++ d)) (length (c ∷ y) - 1)) b ≡ true
next_last a c y d b k =
    let e : length (a ∷ c ∷ y) - 1 ≡ suc (length y) = omega arith in
    let e' : length (c ∷ y) - 1 ≡ length y = omega arith in ground arith

last_byte :
    (y d : Text) (b : ℕ)
    → 0 < length y
    → byte_is (get_elem? (y ++ d) (length y - 1)) b ≡ true
    → (x : Text) × (y ≡ x ++ b ∷ [])
last_byte [] d b h k = absurd (omega arith)
last_byte (a ∷ []) d b h k = ([], ap (λ n. n ∷ []) ((==_iff a b).0 k))
last_byte (a ∷ c ∷ y) d b h k =
    let (x, e) = last_byte (c ∷ y) d b (omega arith) (next_last a c y d b k) in
    (a ∷ x, ap (◌∷◌ a) e)

domain_rest : (x d : Text) (b : ℕ) → byte_is (get_elem? (x ++ b ∷ d) (length x)) b ≡ true
domain_rest [] d b = ground arith
domain_rest (a ∷ x) d b = domain_rest x d b

abbrev domain_test : Text → Text → Bool
domain_test h d =
    has_suffix h d
    && (ltb (length d) (length h) && byte_is (get_elem? h (length h - length d - 1)) b'.')

before_dot : (y d : Text) → domain_test (y ++ d) d ≡ true → IsWithin (y ++ d) d
before_dot y d k =
    let n : length (y ++ d) - length d - 1 ≡ length y - 1 = omega (arith, length-append y d) in
    let b : byte_is (get_elem? (y ++ d) (length (y ++ d) - length d - 1)) b'.' ≡ true =
      ground arith in
    let l : ltb (length d) (length (y ++ d)) ≡ true = ground arith in
    let (x, p) = last_byte y d b'.' (ground (arith, length-append y d)) (rw n at b) in
    (x, ap (λ t. t ++ d) p ∙ append_assoc x (b'.' ∷ []) d)

domain_test_sound : (h d : Text) → domain_test h d ≡ true → IsWithin h d
domain_test_sound h d k =
    let (y, q) = append_of_has_suffix h d (ground arith) in
    let (x, p) = before_dot y d (rw q at k) in (x, q ∙ p)

domain_test_dot : (x d : Text) → domain_test (x ++ b'.' ∷ d) d ≡ true
domain_test_dot x d =
    let e : x ++ b'.' ∷ d ≡ (x ++ b'.' ∷ []) ++ d = sym (append_assoc x (b'.' ∷ []) d) in
    let a : has_suffix (x ++ b'.' ∷ d) d ≡ true = rw e (has_suffix-append (x ++ b'.' ∷ []) d) in
    let len = length-append x (b'.' ∷ d) in
    let n : length (x ++ b'.' ∷ d) - length d - 1 ≡ length x = omega (arith, len) in
    let l : ltb (length d) (length (x ++ b'.' ∷ d)) ≡ true = ground (arith, len) in
    rw (a, l, n) (domain_rest x d b'.')

within_test : (h d : Text) → IsWithin h d → domain_test h d ≡ true
within_test h d (x, q) = rw q (domain_test_dot x d)

-- A host matches a cookie's domain exactly when the two are the same name, whatever the case of the
-- letters, or the host is not an IP address and is the domain with labels and a dot before it.
pub domain_match_iff :
    (parse_ip : Text → Bool) (host cookie_domain : Text)
    → (domain_match parse_ip host cookie_domain ≡ true) ↔ (
        (to_lower host ≡ to_lower cookie_domain)
        ⊎ ((parse_ip (to_lower host) ≡ false) × IsWithin (to_lower host) (to_lower cookie_domain)))
unfolding domain_match
domain_match_iff parse_ip host cookie_domain =
    let h = to_lower host in
    let d = to_lower cookie_domain in
    (
      λ k. elim (Bool-cases (text_eq h d)) [
        | inl e ↦ inl ((text_eq_iff h d).0 e)
        | inr e ↦ inr (ground arith, domain_test_sound h d (ground arith))
      ],
      λ k. elim k [
        | inl e ↦ ground (arith, text_eq_iff h d)
        | inr p ↦ let w : domain_test h d ≡ true = within_test h d p.1 in ground arith
      ],
    )
