-- ===== src/Trie/Matching.antt =====
-- What matching finds, against a description of patterns that does not mention nodes.
use mathlib.Core.List.{reverse}
use aoni.Base.{
  ◌≡◌, refl, ◌≢◌, ◌⊎◌, inl, inr, List, [], ◌∷◌, Option, none, some, arith, Option-cases, All, true,
  false,
}
use aoni.Base.Text.{Text, text_eq_iff, text_eq_refl, is_empty}
use aoni.Trie.{
  Node, Children, Wildcard, node, absent, present, star, child, value_of, or_else,
  match_domain_node, insert_labels, insert, match, normalize,
}
use aoni.Trie.Store.{stored, labels_eq, stored-insert_labels}

-- Patterns and domains are listed from the right label. A `*` stands for one label, and as the last
-- label of a pattern for all that are left, one at least.
abbrev pub Covers : List Text → List Text → Type 0
Covers [] [] = Unit
Covers [] (l ∷ ls) = ⊥
Covers (a ∷ p) [] = ⊥
Covers (a ∷ p) (l ∷ ls) = (((a ≡ l) ⊎ (a ≡ star)) × Covers p ls) ⊎ ((a ≡ star) × (p ≡ []))

-- At the first label, from the right, where two patterns differ, the first has a name and the
-- second a `*`; or the second one ends first.
abbrev pub Prefers : List Text → List Text → Type 0
Prefers [] [] = Unit
Prefers [] (b ∷ q) = ⊥
Prefers (a ∷ p) [] = Unit
Prefers (a ∷ p) (b ∷ q) = ((a ≢ star) × (b ≡ star)) ⊎ ((a ≡ b) × Prefers p q)

Prefers-nil : (p : List Text) → Prefers p []
Prefers-nil [] = tt
Prefers-nil (a ∷ p) = tt

abbrev pub NoStar : List Text → Type 0
NoStar ls = All (λ l. l ≢ star) ls

module _ {ℓ} {V : Type ℓ} where
  abbrev try_child : Option (Node V) → List Text → Option V
  try_child none rest = none
  try_child (some n) rest = match_domain_node rest n

  abbrev try_wildcard : Wildcard V → List Text → Option V
  try_wildcard absent rest = none
  try_wildcard (present n) rest = or_else (match_domain_node rest n) (value_of n)

  match-cons :
      (l : Text) (ls : List Text) (o : Option V) (cs : Children V) (w : Wildcard V)
      → match_domain_node (l ∷ ls) (node o cs w)
        ≡ or_else (try_child (child l cs) ls) (try_wildcard w ls)
  unfolding match_domain_node
  match-cons l ls o cs w = ground arith

  -- No stored pattern covers the labels.
  abbrev pub Uncovered : List Text → Node V → Type ℓ
  Uncovered ls n = (q : List Text) (v : V) → stored q n ≡ some v → ¬ Covers q ls

  Uncovered-cons :
      (l : Text) (ls : List Text) (o : Option V) (cs : Children V) (w : Wildcard V)
      → l ≢ star
      → ((x : Node V) → match_domain_node ls x ≡ none → Uncovered ls x)
      → match_domain_node (l ∷ ls) (node o cs w) ≡ none
      → Uncovered (l ∷ ls) (node o cs w)
  unfolding stored match_domain_node
  Uncovered-cons l ls o cs w h ih m [] v s c = c
  Uncovered-cons l ls o cs absent h ih m (b ∷ q) v s c = elim (Option-cases (child l cs)) [
    | inl e ↦ ground (arith, text_eq_iff b star)
    | inr (x, e) ↦
        ground (arith, text_eq_iff b star, ih x, λ (k : match_domain_node ls x ≡ none). ih x k q v)
  ]
  Uncovered-cons l ls o cs (present y) h ih m (b ∷ q) v s c = elim (Option-cases (child l cs)) [
    | inl e ↦ ground (arith, text_eq_iff b star, λ (k : match_domain_node ls y ≡ none). ih y k q v)
    | inr (x, e) ↦ ground (
      arith,
      text_eq_iff b star,
      λ (k : match_domain_node ls x ≡ none). ih x k q v,
      λ (k : match_domain_node ls y ≡ none). ih y k q v,
    )
  ]

  -- Where nothing is found for a domain none of whose labels is `*`, no stored pattern covers it.
  pub match_complete :
      (ls : List Text) (n : Node V) (q : List Text) (v : V)
      → NoStar ls
      → match_domain_node ls n ≡ none
      → stored q n ≡ some v
      → ¬ Covers q ls
  unfolding stored match_domain_node
  match_complete [] (node o cs w) [] v _ m s c = ground arith
  match_complete [] n (b ∷ q) v _ m s c = c
  match_complete (l ∷ ls) (node o cs w) q v (h, hs) m s c =
      Uncovered-cons l ls o cs w h (λ x k q' u. match_complete ls x q' u hs k) m q v s c

  -- `p` is stored with the value `v`, covers the labels, and is preferred to all that do.
  abbrev pub IsBest : List Text → List Text → Node V → V → Type ℓ
  IsBest p ls n v =
      (stored p n ≡ some v)
      × Covers p ls
      × ((q : List Text) (u : V) → stored q n ≡ some u → Covers q ls → Prefers p q)

  IsBest-of_child :
      (l : Text) (ls p : List Text) (o : Option V) (cs : Children V) (w : Wildcard V) (x : Node V)
      (v : V)
      → l ≢ star
      → child l cs ≡ some x
      → IsBest p ls x v
      → IsBest (l ∷ p) (l ∷ ls) (node o cs w) v
  unfolding stored
  IsBest-of_child l ls p o cs w x v h e (s, c, best) =
      (ground (arith, text_eq_iff l star), inl (inl refl, c), pref)
    where
      pref :
          (q : List Text) (u : V)
          → stored q (node o cs w) ≡ some u
          → Covers q (l ∷ ls)
          → Prefers (l ∷ p) q
      pref [] u s' c' = tt
      pref (b ∷ q) u s' c' = ground (arith, text_eq_iff b star, best q u)

  IsBest-of_wildcard :
      (l : Text) (ls p : List Text) (o : Option V) (cs : Children V) (y : Node V) (v : V)
      → l ≢ star
      → ((q : List Text) (u : V) → stored (l ∷ q) (node o cs (present y)) ≡ some u → ¬ Covers q ls)
      → (stored p y ≡ some v)
      → (Covers p ls ⊎ (p ≡ []))
      → ((q : List Text) (u : V) → stored q y ≡ some u → Covers q ls → Prefers p q)
      → IsBest (star ∷ p) (l ∷ ls) (node o cs (present y)) v
  unfolding stored
  IsBest-of_wildcard l ls p o cs y v h exact s c best =
      (ground (arith, text_eq_iff star star), ground arith, pref)
    where
      pref :
          (q : List Text) (u : V)
          → stored q (node o cs (present y)) ≡ some u
          → Covers q (l ∷ ls)
          → Prefers (star ∷ p) q
      pref [] u s' c' = tt
      pref (b ∷ q) u s' c' = ground (arith, text_eq_iff b star, best q u, exact q u, Prefers-nil p)

  abbrev pub Found : List Text → Node V → V → Type ℓ
  Found ls n v = (p : List Text) × IsBest p ls n v

  Found-wildcard :
      (l : Text) (ls : List Text) (o : Option V) (cs : Children V) (w : Wildcard V) (v : V)
      → l ≢ star
      → NoStar ls
      → ((y : Node V) → match_domain_node ls y ≡ some v → Found ls y v)
      → ((q : List Text) (u : V) → stored (l ∷ q) (node o cs w) ≡ some u → ¬ Covers q ls)
      → try_wildcard w ls ≡ some v
      → Found (l ∷ ls) (node o cs w) v
  unfolding stored
  Found-wildcard l ls o cs absent v h hs ih exact m = cc
  Found-wildcard l ls o cs (present y) v h hs ih exact m =
      elim (Option-cases (match_domain_node ls y)) [
        | inl e ↦ (
          star ∷ [],
          IsBest-of_wildcard l ls [] o cs y v h exact (ground arith) (inr refl)
              (λ q u s c. absurd (match_complete ls y q u hs e s c)),
        )
        | inr (u, e) ↦
            let (p, (s, c, best)) = ih y (ground arith) in
            (star ∷ p, IsBest-of_wildcard l ls p o cs y v h exact s (inl c) best)
      ]

  Found-cons :
      (l : Text) (ls : List Text) (o : Option V) (cs : Children V) (w : Wildcard V) (v : V)
      → l ≢ star
      → NoStar ls
      → ((y : Node V) (u : V) → NoStar ls → match_domain_node ls y ≡ some u → Found ls y u)
      → match_domain_node (l ∷ ls) (node o cs w) ≡ some v
      → Found (l ∷ ls) (node o cs w) v
  unfolding stored match_domain_node
  Found-cons l ls o cs w v h hs ih m = elim (Option-cases (child l cs)) [
    | inl e ↦
        Found-wildcard l ls o cs w v h hs (λ y. ih y v hs)
          (λ q u s c. ground (arith, text_eq_iff l star)) (ground arith)
    | inr (x, e) ↦ elim (Option-cases (match_domain_node ls x)) [
      | inl e' ↦
          Found-wildcard l ls o cs w v h hs (λ y. ih y v hs)
            (λ q u s c. match_complete ls x q u hs e' (ground (arith, text_eq_iff l star)) c)
            (ground arith)
      | inr (u, e') ↦
          let (p, best) = ih x v hs (ground arith) in
          (l ∷ p, IsBest-of_child l ls p o cs w x v h e best)
    ]
  ]

  -- For a domain none of whose labels is `*`, what is found is the value of a stored pattern that
  -- covers the domain, and no stored pattern that covers it is preferred to that one.
  pub match_sound :
      (ls : List Text) (n : Node V) (v : V)
      → NoStar ls
      → match_domain_node ls n ≡ some v
      → Found ls n v
  unfolding stored match_domain_node
  match_sound [] (node o cs w) v _ m = ([], (m, tt, pref))
    where
      pref : (q : List Text) (u : V) → stored q (node o cs w) ≡ some u → Covers q [] → Prefers [] q
      pref [] u s c = tt
      pref (b ∷ q) u s c = c
  match_sound (l ∷ ls) (node o cs w) v (h, hs) m = Found-cons l ls o cs w v h hs (match_sound ls) m

eq_of_Prefers : (p ls : List Text) → NoStar ls → Prefers p ls → Covers p ls → p ≡ ls
eq_of_Prefers [] [] h k c = refl
eq_of_Prefers [] (l ∷ ls) h k c = absurd k
eq_of_Prefers (a ∷ p) [] h k c = absurd c
eq_of_Prefers (a ∷ p) (l ∷ ls) (h, hs) k c = ground (arith, eq_of_Prefers p ls hs)

Covers-refl : (ls : List Text) → Covers ls ls
Covers-refl [] = tt
Covers-refl (l ∷ ls) = inl (inl refl, Covers-refl ls)

labels_eq_refl : (ls : List Text) → labels_eq ls ls ≡ true
labels_eq_refl [] = refl
labels_eq_refl (l ∷ ls) = rw (text_eq_refl l) (labels_eq_refl ls)

match_labels-insert_labels {ℓ} :
    {V : Type ℓ} (ls : List Text) (v : V) (n : Node V)
    → NoStar ls
    → match_domain_node ls (insert_labels ls v n) ≡ some v
match_labels-insert_labels ls v n h =
    let here : stored ls (insert_labels ls v n) ≡ some v =
      ground (arith, stored-insert_labels ls ls v n, labels_eq_refl ls) in
    elim (Option-cases (match_domain_node ls (insert_labels ls v n))) [
      | inl e ↦ absurd (match_complete ls _ ls v h e here (Covers-refl ls))
      | inr (u, e) ↦
          let (p, (s, c, best)) = match_sound ls _ u h e in
          let same : p ≡ ls = eq_of_Prefers p ls h (best ls v here (Covers-refl ls)) c in
          ground arith
    ]

-- A domain that was registered under its own name, and holds no lone `*` between its dots, is found
-- with the value given last, whatever the trie held before.
pub match-insert {ℓ} :
    {V : Type ℓ} (scan_tokens : Text → List Text) (domain : Text) (v : V) (root : Node V)
    → is_empty (normalize domain) ≡ false
    → NoStar (reverse (scan_tokens (normalize domain)))
    → match scan_tokens domain (insert scan_tokens domain v root) ≡ some v
unfolding match insert
match-insert scan_tokens domain v root nonempty h =
    rw nonempty (match_labels-insert_labels (reverse (scan_tokens (normalize domain))) v root h)
