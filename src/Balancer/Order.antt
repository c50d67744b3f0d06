-- ===== src/Balancer/Order.antt =====
-- resiliency/loadbalancer/loadbalancer.go: the order in which buildBackendIndices puts the backends.
pub mod Occurs
pub mod InRange
use aoni.Base.{
  ℕ, zero, suc, ◌+◌, ◌-◌, ◌*◌, ◌%◌, ◌^◌, ◌<◌, ◌==◌, Bool, true, false, not, ◌&&◌, ◌||◌, List, [],
  ◌∷◌, Option, none, some, ltb, leb, if◌then◌else◌, length, get_elem?, set, map,
}
use aoni.Base.Int.{ℤ, pos, negsuc}
use aoni.Balancer.Pool.{
  Strategy, round_robin, random, weighted_round_robin, Error, no_backends, no_healthy_backends,
  transport, invalid_backend_url, all_backends_failed, Request, Response, Backend, Balancer, Net,
  available_at,
}

unfoldable pub count_up : ℕ → ℕ → List ℕ
count_up from zero = []
count_up from (suc n) = from ∷ count_up (suc from) n

unfoldable pub rotation : ℕ → ℕ → List ℕ
rotation start n = map (λ i. (start + i) % n) (count_up 0 n)

abbrev pub exchange : List ℕ → ℕ → ℕ → Option ℕ → Option ℕ → List ℕ
exchange xs i j (some a) (some b) = set (set xs i b) j a
exchange xs i j (some a) none = xs
exchange xs i j none at_j = xs

unfoldable pub swap : List ℕ → ℕ → ℕ → List ℕ
swap xs i j = exchange xs i j (get_elem? xs i) (get_elem? xs j)

-- Fisher-Yates from index i down to 1, where intn is what randkit.Intn returns for each bound.
unfoldable pub shuffle : (ℕ → ℕ) → ℕ → List ℕ → List ℕ
shuffle intn zero xs = xs
shuffle intn (suc i) xs = shuffle intn i (swap xs (suc i) (intn (suc (suc i))))

abbrev pub gt_ℤ : ℤ → ℤ → Bool
gt_ℤ (pos a) (pos b) = ltb b a
gt_ℤ (pos a) (negsuc b) = true
gt_ℤ (negsuc a) (pos b) = false
gt_ℤ (negsuc a) (negsuc b) = ltb a b

abbrev pub weight_of : List Backend → ℕ → ℤ
weight_of bs i = elim (get_elem? bs i) [ none ↦ pos 0 | some b ↦ b.weight ]

-- slices.SortStableFunc by falling weight, for weights whose differences are int values.
unfoldable pub insert_index : List Backend → ℕ → List ℕ → List ℕ
insert_index bs i [] = i ∷ []
insert_index bs i (j ∷ js) =
    if gt_ℤ (weight_of bs j) (weight_of bs i) then j ∷ insert_index bs i js else i ∷ (j ∷ js)

unfoldable pub sort_indices : List Backend → List ℕ → List ℕ
sort_indices bs [] = []
sort_indices bs (i ∷ is) = insert_index bs i (sort_indices bs is)

abbrev pub next_current : Balancer → ℕ
next_current lb = (lb.current + 1) % 2 ^ 64

abbrev pub order_by : (ℕ → ℕ) → Strategy → ℕ → List Backend → List ℕ
order_by intn round_robin next bs = rotation (next % length bs) (length bs)
order_by intn random next bs = shuffle intn (length bs - 1) (count_up 0 (length bs))
order_by intn weighted_round_robin next bs = sort_indices bs (count_up 0 (length bs))

-- The order that buildBackendIndices writes, the same as that of Do's own loop for RoundRobin.
unfoldable pub build_backend_indices : (ℕ → ℕ) → Balancer → List ℕ
build_backend_indices intn lb = order_by intn lb.strategy (next_current lb) lb.backends

abbrev pub current_after : Balancer → ℕ
current_after lb = elim lb.strategy [ round_robin ↦ next_current lb | _ ↦ lb.current ]
