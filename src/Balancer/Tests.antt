-- ===== src/Balancer/Tests.antt =====
-- Runs and instances for the load balancer.
use aoni.Base.{
  ℕ, zero, suc, sym, ap, ◌∙◌, ◌+◌, ◌≡◌, refl, false, [], ◌∷◌, Option, none, some, arith, ◌==◌,
  if◌then◌else◌, get_elem?,
}
use aoni.Base.Int.{pos}
use aoni.Base.Text.{Text, bytes}
use aoni.Base.Sample.{library}
use aoni.Health.{new_tracker, mark_failed, is_available}
use aoni.Balancer.Pool.{
  Error, transport, Strategy, round_robin, random, weighted_round_robin, Request, Response, Backend,
  Balancer, Net, create_backend, available_at, stats, reset_all,
}
use aoni.Balancer.Attempts.{is_fault}
use aoni.Balancer.Order.{
  count_up, rotation, swap, shuffle, insert_index, sort_indices, build_backend_indices,
}
use aoni.Balancer.Call.{do_request}
use aoni.Balancer.Failover.{Serves, IsServed, do_request-Serves}
use aoni.Balancer.Statistics.{stats-reset_all}

abbrev parse : Text → Option (Text × Text)
parse u = some (bytes "http", u)

abbrev node : ℕ → Text → Backend
unfolding create_backend new_tracker
node client url = create_backend library parse 3 (pos 30000000000) client url

abbrev bad : Backend
bad = node 1 (bytes "a:80")

abbrev good : Backend
good = node 2 (bytes "b:80")

abbrev pool : Strategy → Balancer
pool s = record {
  backends = bad ∷ good ∷ [];
  strategy = s;
  max_fails = 3;
  retry_after = pos 30000000000;
  current = 1;
}

abbrev replies : ℕ → Option Response × Option Error
replies client =
    if client == 2
    then (some (record { status_code = 200; body = bytes "ok" }), none)
    else (none, some (transport 7 false))

abbrev net : Net
net = record {
  checked_at = λ k. 100;
  recorded_at = λ k. 100 + k;
  reply = λ k client req. replies client;
}

abbrev req : Request
req = record { scheme = bytes "http"; host = bytes "svc"; path = bytes "/x" }

abbrev intn : ℕ → ℕ
intn bound = 0

abbrev down : Backend
unfolding mark_failed create_backend new_tracker
down = record good {
  tracker = (mark_failed 90 (mark_failed 90 (mark_failed 90 good.tracker).0).0).0;
}

abbrev pool_down : Balancer
pool_down = record (pool random) { backends = down ∷ [] }

orders :
    (build_backend_indices intn (pool round_robin) ≡ 0 ∷ 1 ∷ [])
    × (build_backend_indices intn (pool random) ≡ 1 ∷ 0 ∷ [])
    × (build_backend_indices intn (pool weighted_round_robin) ≡ 0 ∷ 1 ∷ [])
unfolding build_backend_indices rotation count_up shuffle swap sort_indices insert_index node
orders = (refl, refl, refl)

good-Serves : Serves net req good
unfolding is_available create_backend new_tracker is_fault
good-Serves = record {
  available = λ k. refl;
  target = (bytes "http", bytes "b:80");
  has_url = refl;
  no_fault = λ k. refl;
}

do_request-Serves_example : IsServed (do_request net intn req (pool round_robin)).0
do_request-Serves_example =
    do_request-Serves net intn req (pool round_robin) 1 good refl good-Serves

is_down : available_at 100 down ≡ false
unfolding is_available down mark_failed create_backend new_tracker node
is_down = refl

down_now :
    (m i : ℕ) (b : Backend)
    → get_elem? pool_down.backends i ≡ some b
    → available_at (net.checked_at m) b ≡ false
down_now m zero b e =
    let same : down ≡ b = ap (λ o. elim o [ none ↦ down | some x ↦ x ]) e in
    ap (available_at 100) (sym same) ∙ is_down
down_now m (suc i) b e = ground arith

stats-reset_all_example : (stats 100 (reset_all pool_down)).unhealthy_backends ≡ 0
stats-reset_all_example = stats-reset_all 100 pool_down
