-- ===== src/Trie.antt =====
-- trie/domain.go: the reverse domain trie. A node of the source is a value of `Node`; its map of
-- children is an association list without repeated labels, and a nil map is the empty list.
pub mod Store
pub mod Matching
mod Tests
use mathlib.Core.List.{reverse}
use aoni.Base.{List, [], ◌∷◌, Option, none, some, if◌then◌else◌}
use aoni.Base.Text.{Text, bytes, text_eq, is_empty, to_lower, trim_space, trim_suffix_byte}

mutual
  -- value and hasValue, children, wildcard.
  pub data Node {ℓ} (V : Type ℓ) : Type ℓ where
    node : Option V → Children V → Wildcard V → Node V

  pub data Children {ℓ} (V : Type ℓ) : Type ℓ where
    nil : Children V
    cons : Text → Node V → Children V → Children V

  pub data Wildcard {ℓ} (V : Type ℓ) : Type ℓ where
    absent : Wildcard V
    present : Node V → Wildcard V

abbrev pub star : Text
star = bytes "*"

-- The cleaning that Insert and Match begin with.
abbrev pub normalize : Text → Text
normalize s = to_lower (trim_suffix_byte b'.' (trim_space s))

module _ {ℓ} {V : Type ℓ} where
  abbrev pub empty : Node V
  empty = node none nil absent

  -- curr.wildcard, made if it is nil.
  abbrev pub wildcard_or_empty : Wildcard V → Node V
  wildcard_or_empty absent = empty
  wildcard_or_empty (present n) = n

  -- curr.children[label], made if it is missing, and changed in place.
  pub update_child : Text → (Node V → Node V) → Children V → Children V
  update_child label f nil = cons label (f empty) nil
  update_child label f (cons k n cs) =
      if text_eq k label then cons k (f n) cs else cons k n (update_child label f cs)

  pub child : Text → Children V → Option (Node V)
  child label nil = none
  child label (cons k n cs) = if text_eq k label then some n else child label cs

  -- The loop of Insert, over the labels from right to left.
  pub insert_labels : List Text → V → Node V → Node V
  insert_labels [] val (node o cs w) = node (some val) cs w
  insert_labels (label ∷ rest) val (node o cs w) =
      if text_eq label star
      then node o cs (present (insert_labels rest val (wildcard_or_empty w)))
      else node o (update_child label (insert_labels rest val) cs) w

  -- The value of a node that has one: curr.hasValue and curr.value.
  abbrev pub value_of : Node V → Option V
  value_of (node o cs w) = o

  abbrev pub or_else : Option V → Option V → Option V
  or_else none q = q
  or_else (some v) q = some v

  pub match_domain_node : List Text → Node V → Option V
  match_domain_node [] (node o cs w) = o
  match_domain_node (label ∷ rest) (node o cs w) =
      or_else (elim (child label cs) [ none ↦ none | some next ↦ match_domain_node rest next ])
        (elim w [ absent ↦ none | present n ↦ or_else (match_domain_node rest n) (value_of n) ])

  -- `scan_tokens` is bytesconv.ScanTokens at the byte '.', which splitDomainLabels collects.
  module _ (scan_tokens : Text → List Text) where
    pub insert : Text → V → Node V → Node V
    insert pattern val root =
        let p = normalize pattern in
        if is_empty p then root else insert_labels (reverse (scan_tokens p)) val root

    pub match : Text → Node V → Option V
    match domain root =
        let d = normalize domain in
        if is_empty d then none else match_domain_node (reverse (scan_tokens d)) root
