-- ===== src/Balancer/Call.antt =====
-- resiliency/loadbalancer/loadbalancer.go: Do and SelectHealthy. A call is one step: other calls in
-- the middle of it are not modelled.
use aoni.Base.{ℕ, ◌==◌, false, List, [], ◌∷◌, Option, none, some, if◌then◌else◌, length, get_elem?}
use aoni.Balancer.Pool.{no_healthy_backends, Request, Backend, Balancer, Net, available_at}
use aoni.Balancer.Attempts.{Outcome, try_each}
use aoni.Balancer.Order.{build_backend_indices, current_after}

-- Do
unfoldable pub do_request : Net → (ℕ → ℕ) → Request → Balancer → Outcome × Balancer
do_request net intn req lb =
    if length lb.backends == 0
    then (
      record {
        resp = none;
        error = some no_healthy_backends;
        backends = lb.backends;
        sent = [];
        panicked = false;
      },
      lb,
    )
    else let out = try_each net 0 (build_backend_indices intn lb) none req lb.backends in
      (out, record lb { backends = out.backends; current = current_after lb })

-- The loop of SelectHealthy; it returns the index of the backend it selects.
unfoldable pub first_available : ℕ → List Backend → List ℕ → Option ℕ
first_available now bs [] = none
first_available now bs (i ∷ order) = elim (get_elem? bs i) [
  | none ↦ none
  | some b ↦ if available_at now b then some i else first_available now bs order
]

unfoldable pub select_healthy : ℕ → (ℕ → ℕ) → Balancer → Option ℕ × Balancer
select_healthy now intn lb = if length lb.backends == 0 then (none, lb) else (
  first_available now lb.backends (build_backend_indices intn lb),
  record lb { current = current_after lb },
)
