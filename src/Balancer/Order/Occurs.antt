-- ===== src/Balancer/Order/Occurs.antt =====
-- resiliency/loadbalancer/loadbalancer.go: every strategy's order names every backend, and no index
-- beyond them.
use native.Mathlib.Nat.{mod-lt, mod-eq_of_lt, add-mod_right}
use aoni.Base.{
  ℕ, zero, suc, ◌+◌, ◌-◌, ◌%◌, ◌^◌, ◌≤◌, ◌<◌, ◌≡◌, refl, sym, ap, ◌∙◌, inl, inr, List, [], ◌∷◌,
  Option, none, some, arith, leb, ◌==◌, length, get_elem?, set, map, Bool-cases, All, length-map,
  length-set, ==_iff, get_elem?-set_self, get_elem?-set_ne,
}
use aoni.Balancer.Pool.{Backend, Balancer, Strategy, round_robin, random, weighted_round_robin}
use aoni.Balancer.Order.{
  count_up, rotation, exchange, swap, shuffle, weight_of, gt_ℤ, insert_index, sort_indices,
  order_by, build_backend_indices,
}

abbrev pub Occurs : ℕ → List ℕ → Type 0
Occurs j xs = (k : ℕ) × (get_elem? xs k ≡ some j)

abbrev pub AllBelow : ℕ → List ℕ → Type 0
AllBelow n xs = All (λ i. i < n) xs

get_elem?-count_up : (from n j : ℕ) → j < n → get_elem? (count_up from n) j ≡ some (from + j)
unfolding count_up
get_elem?-count_up from zero j h = absurd (omega arith)
get_elem?-count_up from (suc n) zero h = ap some (omega arith)
get_elem?-count_up from (suc n) (suc j) h =
    get_elem?-count_up (suc from) n j (omega arith) ∙ ap some (omega arith)

get_elem?-map :
    (f : ℕ → ℕ) (xs : List ℕ) (k j : ℕ)
    → get_elem? xs k ≡ some j
    → get_elem? (map f xs) k ≡ some (f j)
get_elem?-map f [] k j h = ground arith
get_elem?-map f (x ∷ xs) zero j h =
    ap {B = Option ℕ} (λ o. elim o [ none ↦ none | some y ↦ some (f y) ]) h
get_elem?-map f (x ∷ xs) (suc k) j h = get_elem?-map f xs k j h

rotation_at : (start n i j : ℕ) → i < n → (start + i) % n ≡ j → Occurs j (rotation start n)
unfolding rotation
rotation_at start n i j h e = (
  i,
  get_elem?-map (λ m. (start + m) % n) (count_up 0 n) i i
        (get_elem?-count_up 0 n i h ∙ ap some (omega arith))
      ∙ ap some e,
)

rotation-Occurs : (start n j : ℕ) → start < n → j < n → Occurs j (rotation start n)
rotation-Occurs start n j hs hj = elim (Bool-cases (leb start j)) [
  | inl q ↦
      let le : start ≤ j = ground arith in
      let e : start + (j - start) ≡ j = omega arith in
      rotation_at start n (j - start) j (omega arith) (rw e (mod-eq_of_lt hj))
  | inr q ↦
      let lt : j < start = ground arith in
      let e : start + (j + n - start) ≡ j + n = omega arith in
      rotation_at start n (j + n - start) j (omega arith)
        (rw e (add-mod_right j n ∙ mod-eq_of_lt hj))
]

length-count_up : (from n : ℕ) → length (count_up from n) ≡ n
unfolding count_up
length-count_up from zero = refl
length-count_up from (suc n) = ap suc (length-count_up (suc from) n)

length-rotation : (start n : ℕ) → length (rotation start n) ≡ n
unfolding rotation
length-rotation start n = length-map (count_up 0 n) _ ∙ length-count_up 0 n

pub get_elem?-lt {ℓ} :
    {A : Type ℓ} (xs : List A) (k : ℕ) (j : A) → get_elem? xs k ≡ some j → k < length xs
get_elem?-lt [] k j h = ground arith
get_elem?-lt (x ∷ xs) zero j h = omega arith
get_elem?-lt (x ∷ xs) (suc k) j h = omega (arith, get_elem?-lt xs k j h)

later : (j x : ℕ) (xs : List ℕ) → Occurs j xs → Occurs j (x ∷ xs)
later j x xs (k, h) = (suc k, h)

exchange-Occurs :
    (xs : List ℕ) (a b j : ℕ) (at_a at_b : Option ℕ)
    → get_elem? xs a ≡ at_a
    → get_elem? xs b ≡ at_b
    → Occurs j xs
    → Occurs j (exchange xs a b at_a at_b)
exchange-Occurs xs a b j none at_b ea eb h = h
exchange-Occurs xs a b j (some x) none ea eb h = h
exchange-Occurs xs a b j (some x) (some y) ea eb (k, h) = elim (Bool-cases (k == a)) [
  | inl ka ↦
      let e : k ≡ a = (==_iff k a).0 ka in
      let xj : some x ≡ some j = sym ea ∙ ap (get_elem? xs) (sym e) ∙ h in
      (
        b,
        get_elem?-set_self (set xs a y) b x
              (omega (arith, length-set xs a y, get_elem?-lt xs b y eb))
            ∙ xj,
      )
  | inr ka ↦ elim (Bool-cases (k == b)) [
    | inl kb ↦
        let e : k ≡ b = (==_iff k b).0 kb in
        let yj : some y ≡ some j = sym eb ∙ ap (get_elem? xs) (sym e) ∙ h in
        (
          a,
          get_elem?-set_ne (set xs a y) x (λ (same : b ≡ a). ground arith)
              ∙ get_elem?-set_self xs a y (get_elem?-lt xs a x ea)
              ∙ yj,
        )
    | inr kb ↦ (
      k,
      get_elem?-set_ne (set xs a y) x (λ (same : b ≡ k). ground arith)
          ∙ get_elem?-set_ne xs y (λ (same : a ≡ k). ground arith)
          ∙ h,
    )
  ]
]

length-exchange :
    (xs : List ℕ) (a b : ℕ) (at_a at_b : Option ℕ) → length (exchange xs a b at_a at_b) ≡ length xs
length-exchange xs a b none at_b = refl
length-exchange xs a b (some x) none = refl
length-exchange xs a b (some x) (some y) = length-set (set xs a y) b x ∙ length-set xs a y

shuffle-Occurs : (intn : ℕ → ℕ) (i j : ℕ) (xs : List ℕ) → Occurs j xs → Occurs j (shuffle intn i xs)
unfolding shuffle swap
shuffle-Occurs intn zero j xs h = h
shuffle-Occurs intn (suc i) j xs h =
    shuffle-Occurs intn i j (swap xs (suc i) (intn (suc (suc i))))
      (exchange-Occurs xs (suc i) (intn (suc (suc i))) j _ _ refl refl h)

length-shuffle : (intn : ℕ → ℕ) (i : ℕ) (xs : List ℕ) → length (shuffle intn i xs) ≡ length xs
unfolding shuffle swap
length-shuffle intn zero xs = refl
length-shuffle intn (suc i) xs =
    length-shuffle intn i (swap xs (suc i) (intn (suc (suc i))))
    ∙ length-exchange xs (suc i) (intn (suc (suc i))) _ _

insert_index-Occurs :
    (bs : List Backend) (i j : ℕ) (xs : List ℕ)
    → Occurs j (i ∷ xs)
    → Occurs j (insert_index bs i xs)
unfolding insert_index
insert_index-Occurs bs i j [] h = h
insert_index-Occurs bs i j (x ∷ xs) (k, h) =
    elim (Bool-cases (gt_ℤ (weight_of bs x) (weight_of bs i))) [
      | inl q ↦ rw q (moved (λ m e. insert_index-Occurs bs i j xs (m, e)) k h)
      | inr q ↦ rw q (k, h)
    ]
  where
    moved :
        ((m : ℕ) → get_elem? (i ∷ xs) m ≡ some j → Occurs j (insert_index bs i xs))
        → (k : ℕ) → get_elem? (i ∷ (x ∷ xs)) k ≡ some j
        → Occurs j (x ∷ insert_index bs i xs)
    moved rest zero e = later j x _ (rest zero e)
    moved rest (suc zero) e = (zero, e)
    moved rest (suc (suc k)) e = later j x _ (rest (suc k) e)

length-insert_index :
    (bs : List Backend) (i : ℕ) (xs : List ℕ) → length (insert_index bs i xs) ≡ suc (length xs)
unfolding insert_index
length-insert_index bs i [] = refl
length-insert_index bs i (x ∷ xs) = ground (arith, length-insert_index bs i xs)

sort_indices-Occurs :
    (bs : List Backend) (j : ℕ) (xs : List ℕ) → Occurs j xs → Occurs j (sort_indices bs xs)
unfolding sort_indices
sort_indices-Occurs bs j [] h = h
sort_indices-Occurs bs j (x ∷ xs) (zero, h) =
    insert_index-Occurs bs x j (sort_indices bs xs) (zero, h)
sort_indices-Occurs bs j (x ∷ xs) (suc k, h) =
    insert_index-Occurs bs x j (sort_indices bs xs)
      (later j x _ (sort_indices-Occurs bs j xs (k, h)))

length-sort_indices : (bs : List Backend) (xs : List ℕ) → length (sort_indices bs xs) ≡ length xs
unfolding sort_indices
length-sort_indices bs [] = refl
length-sort_indices bs (x ∷ xs) =
    length-insert_index bs x (sort_indices bs xs) ∙ ap suc (length-sort_indices bs xs)

counted : (n j : ℕ) → j < n → Occurs j (count_up 0 n)
counted n j h = (j, get_elem?-count_up 0 n j h ∙ ap some (omega arith))

-- Whatever the strategy, the weights, the counter and the random numbers, the order is as long as
-- the pool and names each backend of it.
pub build_backend_indices-Occurs :
    (intn : ℕ → ℕ) (lb : Balancer) (j : ℕ)
    → j < length lb.backends
    → (length (build_backend_indices intn lb) ≡ length lb.backends)
      × Occurs j (build_backend_indices intn lb)
unfolding build_backend_indices
build_backend_indices-Occurs intn lb j h = by_strategy lb.strategy
  where
    next : ℕ
    next = (lb.current + 1) % 2 ^ 64

    n : ℕ
    n = length lb.backends

    by_strategy :
        (s : Strategy)
        → (length (order_by intn s next lb.backends) ≡ n)
          × Occurs j (order_by intn s next lb.backends)
    by_strategy round_robin =
        (length-rotation (next % n) n, rotation-Occurs (next % n) n j (mod-lt next (omega arith)) h)
    by_strategy random = (
      length-shuffle intn (n - 1) (count_up 0 n) ∙ length-count_up 0 n,
      shuffle-Occurs intn (n - 1) j (count_up 0 n) (counted n j h),
    )
    by_strategy weighted_round_robin = (
      length-sort_indices lb.backends (count_up 0 n) ∙ length-count_up 0 n,
      sort_indices-Occurs lb.backends j (count_up 0 n) (counted n j h),
    )
