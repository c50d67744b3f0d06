-- ===== src/Balancer/Statistics.antt =====
-- resiliency/loadbalancer/loadbalancer.go: Stats, SelectHealthy and Reset agree about the pool.
use aoni.Base.{
  ℕ, zero, suc, ◌+◌, ◌≡◌, refl, sym, ap, ◌∙◌, inl, inr, ◌↔◌, false, List, [], ◌∷◌, none, some,
  arith, ◌==◌, if◌then◌else◌, length, get_elem?, Bool-cases, map,
}
use aoni.Health.{is_available, reset}
use aoni.Balancer.Pool.{
  Backend, Balancer, available_at, stats, healthy_count, unhealthy_count, reset_backend, reset_all,
}
use aoni.Balancer.Order.{build_backend_indices}
use aoni.Balancer.Order.Occurs.{Occurs, build_backend_indices-Occurs, get_elem?-lt}
use aoni.Balancer.Order.InRange.{AllBelow, build_backend_indices-AllBelow}
use aoni.Balancer.Call.{first_available, select_healthy}
use aoni.Balancer.Failover.{at_index}

abbrev NoneAvailable : ℕ → List Backend → Type 0
NoneAvailable now bs = (i : ℕ) (b : Backend) → get_elem? bs i ≡ some b → available_at now b ≡ false

counts_lem :
    (now : ℕ) (bs : List Backend) → healthy_count now bs + unhealthy_count now bs ≡ length bs
unfolding healthy_count unhealthy_count
counts_lem now [] = refl
counts_lem now (b ∷ bs) = ground (arith, counts_lem now bs)

healthy_count-NoneAvailable :
    (now : ℕ) (bs : List Backend) → NoneAvailable now bs → healthy_count now bs ≡ 0
unfolding healthy_count
healthy_count-NoneAvailable now [] h = refl
healthy_count-NoneAvailable now (b ∷ bs) h =
    rw (h 0 b refl) (healthy_count-NoneAvailable now bs (λ i c e. h (suc i) c e))

NoneAvailable-healthy_count :
    (now : ℕ) (bs : List Backend) → healthy_count now bs ≡ 0 → NoneAvailable now bs
unfolding healthy_count
NoneAvailable-healthy_count now [] h i c e = ground arith
NoneAvailable-healthy_count now (b ∷ bs) h zero c e =
    let same : b ≡ c = ap (λ o. elim o [ none ↦ b | some x ↦ x ]) e in rw (sym same) (ground arith)
NoneAvailable-healthy_count now (b ∷ bs) h (suc i) c e =
    NoneAvailable-healthy_count now bs (ground arith) i c e

first_available-cons :
    (now : ℕ) (bs : List Backend) (i : ℕ) (order : List ℕ) (c : Backend)
    → get_elem? bs i ≡ some c
    → first_available now bs (i ∷ order)
      ≡ (if available_at now c then some i else first_available now bs order)
unfolding first_available
first_available-cons now bs i order c e = rw (e, first_available) refl

first_available-NoneAvailable :
    (now : ℕ) (bs : List Backend) (order : List ℕ)
    → AllBelow (length bs) order
    → NoneAvailable now bs
    → first_available now bs order ≡ none
unfolding first_available
first_available-NoneAvailable now bs [] below h = refl
first_available-NoneAvailable now bs (i ∷ order) (hi, below) h =
    let (c, ec) = at_index bs i hi in
    rw (first_available-cons now bs i order c ec, h i c ec)
      (first_available-NoneAvailable now bs order below h)

unavailable_of_none :
    (now : ℕ) (bs : List Backend) (order : List ℕ) (j : ℕ) (b : Backend)
    → AllBelow (length bs) order
    → first_available now bs order ≡ none
    → Occurs j order
    → get_elem? bs j ≡ some b
    → available_at now b ≡ false
unavailable_of_none now bs [] j b below h (k, e) eb = ground arith
unavailable_of_none now bs (i ∷ order) j b (hi, below) h (zero, e) eb =
    let same : i ≡ j = ap (λ o. elim o [ none ↦ i | some x ↦ x ]) e in
    let at_i = ap (get_elem? bs) same ∙ eb in
    let step = sym (first_available-cons now bs i order b at_i) ∙ h in ground arith
unavailable_of_none now bs (i ∷ order) j b (hi, below) h (suc k, e) eb =
    let (c, ec) = at_index bs i hi in
    let step = sym (first_available-cons now bs i order c ec) ∙ h in
    unavailable_of_none now bs order j b below (ground arith) (k, e) eb

-- The healthy and the unhealthy backends that Stats counts are the whole pool, and SelectHealthy
-- finds a backend at that instant, whatever the strategy, unless none is counted as healthy.
select_healthy-stats :
    (now : ℕ) (intn : ℕ → ℕ) (lb : Balancer)
    → ((stats now lb).healthy_backends + (stats now lb).unhealthy_backends
        ≡ (stats now lb).total_backends)
      × (((select_healthy now intn lb).0 ≡ none) ↔ ((stats now lb).healthy_backends ≡ 0))
unfolding select_healthy stats
select_healthy-stats now intn lb = (counts_lem now lb.backends, (to, from))
  where
    to : (select_healthy now intn lb).0 ≡ none → healthy_count now lb.backends ≡ 0
    to e = healthy_count-NoneAvailable now lb.backends (λ i b eb.
        let h = get_elem?-lt lb.backends i b eb in
        let some_backend : (length lb.backends == 0) ≡ false = ground arith in
        unavailable_of_none now lb.backends (build_backend_indices intn lb) i b
          (build_backend_indices-AllBelow intn lb (omega arith)) (rw some_backend at e)
          (build_backend_indices-Occurs intn lb i h).1 eb)

    from : healthy_count now lb.backends ≡ 0 → (select_healthy now intn lb).0 ≡ none
    from e = elim (Bool-cases (length lb.backends == 0)) [
      | inl q ↦ rw q refl
      | inr q ↦ rw q (
          first_available-NoneAvailable now lb.backends (build_backend_indices intn lb)
            (build_backend_indices-AllBelow intn lb (ground arith))
            (NoneAvailable-healthy_count now lb.backends e))
    ]

unhealthy_count-reset :
    (now : ℕ) (bs : List Backend) → unhealthy_count now (map reset_backend bs) ≡ 0
unfolding unhealthy_count reset is_available
unhealthy_count-reset now [] = refl
unhealthy_count-reset now (b ∷ bs) = ground (arith, unhealthy_count-reset now bs)

-- After Reset no backend is counted as unhealthy, at any time.
pub stats-reset_all : (now : ℕ) (lb : Balancer) → (stats now (reset_all lb)).unhealthy_backends ≡ 0
unfolding stats reset_all
stats-reset_all now lb = unhealthy_count-reset now lb.backends
