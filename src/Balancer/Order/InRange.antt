-- ===== src/Balancer/Order/InRange.antt =====
-- resiliency/loadbalancer/loadbalancer.go: no strategy names an index beyond the pool.
use native.Mathlib.Nat.{mod-lt}
use aoni.Base.{
  ℕ, zero, suc, ◌+◌, ◌-◌, ◌%◌, ◌^◌, ◌<◌, ◌≤◌, ◌≡◌, refl, inl, inr, List, [], ◌∷◌, Option, none,
  some, arith, length, get_elem?, set, map, Bool-cases, All,
}
use aoni.Balancer.Pool.{Backend, Balancer, Strategy, round_robin, random, weighted_round_robin}
use aoni.Balancer.Order.{
  count_up, rotation, exchange, swap, shuffle, weight_of, gt_ℤ, insert_index, sort_indices,
  order_by, build_backend_indices,
}

abbrev pub AllBelow : ℕ → List ℕ → Type 0
AllBelow n xs = All (λ i. i < n) xs

set-AllBelow : (n : ℕ) (xs : List ℕ) (i v : ℕ) → v < n → AllBelow n xs → AllBelow n (set xs i v)
set-AllBelow n [] i v hv h = h
set-AllBelow n (x ∷ xs) zero v hv (hx, h) = (hv, h)
set-AllBelow n (x ∷ xs) (suc i) v hv (hx, h) = (hx, set-AllBelow n xs i v hv h)

get_elem?-AllBelow :
    (n : ℕ) (xs : List ℕ) (k v : ℕ) → AllBelow n xs → get_elem? xs k ≡ some v → v < n
get_elem?-AllBelow n [] k v h e = ground arith
get_elem?-AllBelow n (x ∷ xs) zero v (hx, h) e = ground arith
get_elem?-AllBelow n (x ∷ xs) (suc k) v (hx, h) e = get_elem?-AllBelow n xs k v h e

count_up-AllBelow : (n from k : ℕ) → from + k ≤ n → AllBelow n (count_up from k)
unfolding count_up
count_up-AllBelow n from zero h = tt
count_up-AllBelow n from (suc k) h = (omega arith, count_up-AllBelow n (suc from) k (omega arith))

counted : (n : ℕ) → AllBelow n (count_up 0 n)
counted n = count_up-AllBelow n 0 n (omega arith)

map-AllBelow : (n : ℕ) (f : ℕ → ℕ) (xs : List ℕ) → ((i : ℕ) → f i < n) → AllBelow n (map f xs)
map-AllBelow n f [] h = tt
map-AllBelow n f (x ∷ xs) h = (h x, map-AllBelow n f xs h)

exchange-AllBelow :
    (n : ℕ) (xs : List ℕ) (a b : ℕ) (at_a at_b : Option ℕ)
    → get_elem? xs a ≡ at_a
    → get_elem? xs b ≡ at_b
    → AllBelow n xs
    → AllBelow n (exchange xs a b at_a at_b)
exchange-AllBelow n xs a b none at_b ea eb h = h
exchange-AllBelow n xs a b (some x) none ea eb h = h
exchange-AllBelow n xs a b (some x) (some y) ea eb h =
    set-AllBelow n (set xs a y) b x (get_elem?-AllBelow n xs a x h ea)
      (set-AllBelow n xs a y (get_elem?-AllBelow n xs b y h eb) h)

shuffle-AllBelow :
    (n : ℕ) (intn : ℕ → ℕ) (i : ℕ) (xs : List ℕ) → AllBelow n xs → AllBelow n (shuffle intn i xs)
unfolding shuffle swap
shuffle-AllBelow n intn zero xs h = h
shuffle-AllBelow n intn (suc i) xs h =
    shuffle-AllBelow n intn i (swap xs (suc i) (intn (suc (suc i))))
      (exchange-AllBelow n xs (suc i) (intn (suc (suc i))) _ _ refl refl h)

insert_index-AllBelow :
    (n : ℕ) (bs : List Backend) (i : ℕ) (xs : List ℕ)
    → i < n
    → AllBelow n xs
    → AllBelow n (insert_index bs i xs)
unfolding insert_index
insert_index-AllBelow n bs i [] hi h = (hi, tt)
insert_index-AllBelow n bs i (x ∷ xs) hi (hx, h) =
    elim (Bool-cases (gt_ℤ (weight_of bs x) (weight_of bs i))) [
      | inl q ↦ rw q (hx, insert_index-AllBelow n bs i xs hi h)
      | inr q ↦ rw q (hi, (hx, h))
    ]

sort_indices-AllBelow :
    (n : ℕ) (bs : List Backend) (xs : List ℕ) → AllBelow n xs → AllBelow n (sort_indices bs xs)
unfolding sort_indices
sort_indices-AllBelow n bs [] h = h
sort_indices-AllBelow n bs (x ∷ xs) (hx, h) =
    insert_index-AllBelow n bs x (sort_indices bs xs) hx (sort_indices-AllBelow n bs xs h)

-- When the pool is not empty, no strategy names an index that is beyond it.
pub build_backend_indices-AllBelow :
    (intn : ℕ → ℕ) (lb : Balancer)
    → 0 < length lb.backends
    → AllBelow (length lb.backends) (build_backend_indices intn lb)
unfolding build_backend_indices rotation
build_backend_indices-AllBelow intn lb h = by_strategy lb.strategy
  where
    n : ℕ
    n = length lb.backends

    next : ℕ
    next = (lb.current + 1) % 2 ^ 64

    by_strategy : (s : Strategy) → AllBelow n (order_by intn s next lb.backends)
    by_strategy round_robin =
        map-AllBelow n (λ i. (next % n + i) % n) (count_up 0 n) (λ i. mod-lt (next % n + i) h)
    by_strategy random = shuffle-AllBelow n intn (n - 1) (count_up 0 n) (counted n)
    by_strategy weighted_round_robin =
        sort_indices-AllBelow n lb.backends (count_up 0 n) (counted n)
