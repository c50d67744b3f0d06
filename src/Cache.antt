-- ===== src/Cache.antt =====
-- resiliency/cache/cache.go: the stores with an expiry. A Go map is a function from keys, the coarse
-- clock is an argument in nanoseconds, and each locked section is one step. The values are not
-- mutated, so the copies that Get and Set make of a byte slice are the slice.
pub mod Histories
mod Tests
use aoni.Base.{
  ℕ, zero, suc, ◌+◌, ◌-◌, ◌%◌, ◌≡◌, ◌==◌, Bool, true, false, List, [], ◌∷◌, Option, none, some, ltb,
  if◌then◌else◌,
}
use aoni.Base.Int.{ℤ, pos, negsuc}

pub record Entry {κ} (V : Type κ) : Type κ where
  pub value : V
  pub expires_at : ℤ

-- now.Add(ttl)
abbrev pub add_ttl : ℕ → ℤ → ℤ
add_ttl now (pos n) = pos (now + n)
add_ttl now (negsuc n) = if ltb n now then pos (now - suc n) else negsuc (n - now)

-- now.After(t)
abbrev pub after : ℕ → ℤ → Bool
after now (pos t) = ltb t now
after now (negsuc t) = true

abbrev pub num_shards : ℕ
num_shards = 32

module _ {κ} {V : Type κ} where
  -- What Get makes of the entry it found: none is ErrCacheMiss.
  unfoldable pub live : ℕ → Option (Entry V) → Option V
  live now none = none
  live now (some e) = if after now e.expires_at then none else some e.value

  abbrev pub unexpired : ℕ → Option (Entry V) → Option (Entry V)
  unexpired now none = none
  unexpired now (some e) = if after now e.expires_at then none else some e

-- hash is maphash.Comparable under the store's seed; its bits under the mask 31 are its rest by 32.
abbrev pub shard_index {ℓ} : {K : Type ℓ} → (K → ℕ) → K → ℕ
shard_index hash key = hash key % num_shards

module _ {ℓ κ} {K : Type ℓ} {V : Type κ} where
  unfoldable pub get : ℕ → K → (K → Option (Entry V)) → Option V
  get now key items = live now (items key)

  unfoldable pub purge_expired : ℕ → (K → Option (Entry V)) → (K → Option (Entry V))
  purge_expired now items key = unexpired now (items key)

  unfoldable pub empty_items : K → Option (Entry V)
  empty_items key = none

  unfoldable pub sharded_purge : ℕ → (ℕ → K → Option (Entry V)) → (ℕ → K → Option (Entry V))
  sharded_purge now shards i = if ltb i num_shards then purge_expired now (shards i) else shards i

  -- equal is the equality of keys.
  unfoldable pub set_entry :
      (K → K → Bool) → ℕ → K → V → ℤ → (K → Option (Entry V)) → (K → Option (Entry V))
  set_entry equal now key val ttl items k =
      if equal key k then some (record { value = val; expires_at = add_ttl now ttl }) else items k

  unfoldable pub sharded_get : (K → ℕ) → ℕ → K → (ℕ → K → Option (Entry V)) → Option V
  sharded_get hash now key shards = live now (shards (shard_index hash key) key)

  unfoldable pub sharded_set :
      (K → K → Bool)
      → (K → ℕ)
      → ℕ
      → K
      → V
      → ℤ
      → (ℕ → K → Option (Entry V))
      → (ℕ → K → Option (Entry V))
  sharded_set equal hash now key val ttl shards i =
      if shard_index hash key == i then set_entry equal now key val ttl (shards i) else shards i

-- generic.LRU of github.com/lemon4ksan/foundation, which is not in the repository: an entry is
-- found right after it is put, and no longer once it is deleted. A found key may move.
pub record Lru (K E : Type 0) : Type 1 where
  pub Cache : Type 0
  pub find : K → Cache → Option E × Cache
  pub put : K → E → Cache → Cache
  pub remove : K → Cache → Cache
  pub find-put : (k : K) (e : E) (c : Cache) → (find k (put k e c)).0 ≡ some e
  pub find-remove : (k : K) (c : Cache) → (find k (remove k c)).0 ≡ none

module _ {K V : Type 0} (lru : Lru K (Entry V)) where
  abbrev pub lru_found : ℕ → K → Option (Entry V) → lru.Cache → Option V × lru.Cache
  lru_found now key none c = (none, c)
  lru_found now key (some e) c =
      if after now e.expires_at then (none, lru.remove key c) else (some e.value, c)

  unfoldable pub lru_get : ℕ → K → lru.Cache → Option V × lru.Cache
  lru_get now key c = lru_found now key (lru.find key c).0 (lru.find key c).1

  unfoldable pub lru_set : ℕ → K → V → ℤ → lru.Cache → lru.Cache
  lru_set now key val ttl c = lru.put key (record { value = val; expires_at = add_ttl now ttl }) c
