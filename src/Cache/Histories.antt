-- ===== src/Cache/Histories.antt =====
-- resiliency/cache/cache.go: the stores over a whole history of writes and evictions.
use aoni.Base.{
  ℕ, ◌%◌, ◌≤◌, ◌≡◌, refl, ap, ◌∙◌, ◌==◌, inl, inr, Bool, true, List, [], ◌∷◌, Option, none, some,
  arith, ltb, if◌then◌else◌, Bool-cases, ==_refl,
}
use aoni.Base.Int.{ℤ, pos, negsuc}
use aoni.Cache.{
  Entry, add_ttl, after, live, get, unexpired, purge_expired, empty_items, set_entry, shard_index,
  sharded_get, sharded_set, sharded_purge, Lru, lru_get, lru_set,
}

pub data Event {ℓ κ} (K : Type ℓ) (V : Type κ) : Type (ℓ ⊔ κ) where
  sets : ℕ → K → V → ℤ → Event K V
  purges : ℕ → Event K V

-- The time of the latest event is at the head.
abbrev pub time_of {ℓ κ} : {K : Type ℓ} {V : Type κ} → Event K V → ℕ
time_of (sets now key val ttl) = now
time_of (purges now) = now

-- No event of the history is later.
abbrev pub IsBefore {ℓ κ} : {K : Type ℓ} {V : Type κ} → ℕ → List (Event K V) → Type 0
IsBefore t [] = Unit
IsBefore t (e ∷ es) = (time_of e ≤ t) × IsBefore t es

live-unexpired {κ} :
    {V : Type κ} (t now : ℕ) (o : Option (Entry V))
    → t ≤ now
    → live now (unexpired t o) ≡ live now o
unfolding live
live-unexpired t now none h = refl
live-unexpired t now (some e) h = elim (Bool-cases (after t e.expires_at)) [
  | inl q ↦ rw (q, later e.expires_at q) refl
  | inr q ↦ rw q refl
]
  where
    later : (x : ℤ) → after t x ≡ true → after now x ≡ true
    later (pos n) p = ground arith
    later (negsuc n) p = refl

module _ {ℓ κ} {K : Type ℓ} {V : Type κ} (equal : K → K → Bool) where
  -- The store after a history, whose latest event is at the head.
  unfoldable pub items_after : List (Event K V) → (K → Option (Entry V))
  items_after [] = empty_items
  items_after (sets now key val ttl ∷ es) = set_entry equal now key val ttl (items_after es)
  items_after (purges now ∷ es) = purge_expired now (items_after es)

  -- What the key was last set to, if its time to live is not over.
  abbrev pub last_set : ℕ → K → List (Event K V) → Option V
  last_set t k [] = none
  last_set t k (sets now key val ttl ∷ es) =
      if equal key k
      then (if after t (add_ttl now ttl) then none else some val)
      else last_set t k es
  last_set t k (purges now ∷ es) = last_set t k es

  -- After any history of writes and evictions none of which is later than the read, Get returns
  -- what the key was last set to if the time to live given then is not over, and a miss otherwise:
  -- evictions cannot be observed.
  pub get-items_after :
      (t : ℕ) (k : K) (es : List (Event K V))
      → IsBefore t es
      → get t k (items_after es) ≡ last_set t k es
  unfolding get live items_after empty_items set_entry purge_expired
  get-items_after t k [] h = refl
  get-items_after t k (sets now key val ttl ∷ es) (h, hs) = elim (Bool-cases (equal key k)) [
    | inl q ↦ rw q refl
    | inr q ↦ rw q (get-items_after t k es hs)
  ]
  get-items_after t k (purges now ∷ es) (h, hs) =
      live-unexpired now t (items_after es k) h ∙ get-items_after t k es hs

  module _ (hash : K → ℕ) where
    unfoldable pub shards_after : List (Event K V) → (ℕ → K → Option (Entry V))
    shards_after [] = λ i. empty_items
    shards_after (sets now key val ttl ∷ es) =
        sharded_set equal hash now key val ttl (shards_after es)
    shards_after (purges now ∷ es) = sharded_purge now (shards_after es)

    same_entry :
        (same_index : (a b : K) → equal a b ≡ true → hash a ≡ hash b) (k : K)
        (es : List (Event K V))
        → shards_after es (shard_index hash k) k ≡ items_after es k
    unfolding items_after shards_after empty_items set_entry sharded_set purge_expired sharded_purge
    same_entry same_index k [] = refl
    same_entry same_index k (purges now ∷ es) =
        let known : ltb (hash k % 32) 32 ≡ true = ground arith in
        rw (known, same_entry same_index k es) refl
    same_entry same_index k (sets now key val ttl ∷ es) = elim (Bool-cases (equal key k)) [
      | inl q ↦ rw (same_index key k q, ==_refl (hash k % 32), q) refl
      | inr q ↦ elim (Bool-cases (shard_index hash key == shard_index hash k)) [
        | inl p ↦ rw (p, q, same_entry same_index k es) refl
        | inr p ↦ rw (p, q, same_entry same_index k es) refl
      ]
    ]

    -- After any history the sharded store answers as the flat one, at every key and time, when equal
    -- keys have equal hashes.
    pub sharded_get-shards_after :
        (same_index : (a b : K) → equal a b ≡ true → hash a ≡ hash b) (t : ℕ) (k : K)
        (es : List (Event K V))
        → sharded_get hash t k (shards_after es) ≡ get t k (items_after es)
    unfolding sharded_get get live
    sharded_get-shards_after same_index t k es = ap (live t) (same_entry same_index k es)

module _ {K V : Type 0} (lru : Lru K (Entry V)) where
  -- Get of the bounded store after the time to live that a Set has just given to the key is a miss,
  -- and it removes the key: the next Get misses at any time, also at an earlier one.
  lru_get-lru_set :
      (now t u : ℕ) (key : K) (val : V) (ttl : ℤ) (c : lru.Cache)
      → after t (add_ttl now ttl) ≡ true
      → ((lru_get lru t key (lru_set lru now key val ttl c)).0 ≡ none)
        × ((lru_get lru u key (lru_get lru t key (lru_set lru now key val ttl c)).1).0 ≡ none)
  unfolding lru_get lru_set
  lru_get-lru_set now t u key val ttl c late =
      let found = lru.find-put key (record { value = val; expires_at = add_ttl now ttl }) c in
      (rw (found, late) refl, rw (found, late) (rw (lru.find-remove key _) refl))
