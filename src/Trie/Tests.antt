-- ===== src/Trie/Tests.antt =====
-- Runs and instances for the trie.
use aoni.Base.{◌≢◌, true, false, ◌++◌, ◌≡◌, refl, ℕ, List, [], ◌∷◌, none, some, arith, ◌==◌}
use aoni.Base.Text.{Text, bytes}
use aoni.Trie.{
  Node, star, empty, insert, match, insert_labels, match_domain_node, child, update_child,
}
use aoni.Trie.Store.{stored}
use aoni.Trie.Matching.{Found, Covers, match_sound, match_complete}

-- A splitter for the tests, which drops no label.
split_from : Text → Text → List Text
split_from cur [] = cur ∷ []
split_from cur (c ∷ s) = elim (c == b'.') [
  | true ↦ cur ∷ split_from [] s
  | false ↦ split_from (cur ++ c ∷ []) s
]

abbrev split : Text → List Text
split s = split_from [] s

abbrev routes : Node ℕ
routes =
    insert split (bytes "*.example.com") 1
      (insert split (bytes "api.example.com") 2 (insert split (bytes "*.b.Example.com.") 3 empty))

runs :
    (match split (bytes "API.example.com") routes ≡ some 2)
    × (match split (bytes "x.y.example.com") routes ≡ some 1)
    × (match split (bytes "a.b.example.com ") routes ≡ some 3)
    × (match split (bytes "example.com") routes ≡ none)
unfolding match insert match_domain_node insert_labels child update_child split_from
runs = (refl, refl, refl, refl)

abbrev com_example : List Text
com_example = bytes "com" ∷ bytes "example" ∷ []

no_star_com : bytes "com" ≢ star
no_star_com e = ground arith

no_star_example : bytes "example" ≢ star
no_star_example e = ground arith

abbrev wild : Node ℕ
wild = insert_labels (bytes "com" ∷ star ∷ []) 7 empty

match_sound_example : Found com_example wild 7
unfolding match_domain_node insert_labels child update_child
match_sound_example = match_sound com_example wild 7 (no_star_com, (no_star_example, tt)) refl

match_complete_example : ¬ Covers (bytes "com" ∷ star ∷ []) (bytes "org" ∷ [])
unfolding match_domain_node insert_labels child update_child stored
match_complete_example =
    match_complete (bytes "org" ∷ []) wild (bytes "com" ∷ star ∷ []) 7 ((λ e. ground arith), tt)
      refl refl
