-- ===== src/Trie/Store.antt =====
-- The trie as a finite map from patterns, listed from the right label, to values.
use aoni.Base.{
  ◌≡◌, refl, Bool, true, false, List, [], ◌∷◌, Option, none, some, arith, if◌then◌else◌, ◌&&◌,
}
use aoni.Base.Text.{Text, text_eq, text_eq_iff}
use aoni.Trie.{
  Node, Children, node, nil, cons, absent, present, star, empty, wildcard_or_empty, update_child,
  child, insert_labels, value_of,
}

abbrev pub labels_eq : List Text → List Text → Bool
labels_eq [] [] = true
labels_eq (a ∷ p) (b ∷ q) = text_eq a b && labels_eq p q
labels_eq _ _ = false

module _ {ℓ} {V : Type ℓ} where
  -- The value at the end of a pattern's own path.
  unfoldable pub stored : List Text → Node V → Option V
  stored [] n = value_of n
  stored (label ∷ rest) (node o cs w) =
      if text_eq label star
      then elim w [ absent ↦ none | present n ↦ stored rest n ]
      else elim (child label cs) [ none ↦ none | some n ↦ stored rest n ]

  abbrev or_empty : Option (Node V) → Node V
  or_empty none = empty
  or_empty (some n) = n

  child-update_child :
      (a b : Text) (f : Node V → Node V) (cs : Children V)
      → child b (update_child a f cs)
        ≡ (if text_eq a b then some (f (or_empty (child a cs))) else child b cs)
  unfolding child update_child
  child-update_child a b f nil = refl
  child-update_child a b f (cons k n cs) =
      ground (arith, text_eq_iff a b, text_eq_iff k a, text_eq_iff k b, child-update_child a b f cs)

  stored-empty : (p : List Text) → stored p empty ≡ none
  unfolding stored child
  stored-empty [] = refl
  stored-empty (label ∷ rest) = ground arith

  -- Inserting a pattern changes the value of that pattern and of no other.
  pub stored-insert_labels :
      (p q : List Text) (v : V) (n : Node V)
      → stored q (insert_labels p v n) ≡ (if labels_eq p q then some v else stored q n)
  unfolding stored insert_labels
  stored-insert_labels [] [] v (node o cs w) = refl
  stored-insert_labels [] (b ∷ q) v (node o cs w) = refl
  stored-insert_labels (a ∷ p) [] v (node o cs w) = ground arith
  stored-insert_labels (a ∷ p) (b ∷ q) v (node o cs w) = ground (
    arith,
    text_eq_iff a b,
    text_eq_iff a star,
    text_eq_iff b star,
    child-update_child a b (insert_labels p v) cs,
    stored-insert_labels p q v (wildcard_or_empty w),
    stored-insert_labels p q v (or_empty (child a cs)),
    stored-empty q,
  )
