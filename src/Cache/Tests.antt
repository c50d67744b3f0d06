-- ===== src/Cache/Tests.antt =====
-- Runs and instances for the caches.
use aoni.Base.{
  ℕ, ◌≡◌, refl, Bool, true, List, [], ◌∷◌, Option, none, some, arith, ◌==◌, if◌then◌else◌, ==_iff,
}
use aoni.Base.Int.{pos}
use aoni.Cache.{Entry, live, set_entry, purge_expired, empty_items, get, sharded_get, Lru}
use aoni.Cache.Histories.{Event, sets, purges, items_after, shards_after, sharded_get-shards_after}

abbrev equal : ℕ → ℕ → Bool
equal a b = a == b

abbrev hash : ℕ → ℕ
hash k = k

-- The latest event is first.
abbrev history : List (Event ℕ ℕ)
history = purges 40 ∷ sets 30 5 8 (pos 100) ∷ sets 20 37 9 (pos 10) ∷ sets 10 5 7 (pos 10) ∷ []

read_back : get 41 5 (items_after equal history) ≡ some 8
unfolding get live items_after set_entry purge_expired empty_items
read_back = refl

hash_respects : (a b : ℕ) → equal a b ≡ true → hash a ≡ hash b
hash_respects a b h = (==_iff a b).0 h

sharded_get-shards_after_example :
    sharded_get hash 41 5 (shards_after equal hash history) ≡ get 41 5 (items_after equal history)
sharded_get-shards_after_example = sharded_get-shards_after equal hash hash_respects 41 5 history

-- A cache of one entry.
abbrev found : ℕ → Option (ℕ × Entry ℕ) → Option (Entry ℕ)
found k none = none
found k (some (j, e)) = if j == k then some e else none

found_self : (k : ℕ) (e : Entry ℕ) → found k (some (k, e)) ≡ some e
found_self k e = ground arith

abbrev one_entry : Lru ℕ (Entry ℕ)
one_entry = record {
  Cache = Option (ℕ × Entry ℕ);
  find = λ k c. (found k c, c);
  put = λ k e c. some (k, e);
  remove = λ k c. none;
  find-put = λ k e c. found_self k e;
  find-remove = λ k c. refl;
}
