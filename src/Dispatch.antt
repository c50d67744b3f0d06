-- ===== src/Dispatch.antt =====
-- pipeline/resilience.go: how a request of the pipeline is sent, with the failover between proxies and
-- the recovery from the statuses 421, 408 and 425. Hedging is in the module of that name.
pub mod Hedging
pub mod Race
pub mod Failover
mod Tests
use aoni.Base.{
  ℕ, zero, suc, ◌+◌, ◌%◌, ◌^◌, ◌<◌, ◌==◌, ◌⊎◌, inl, inr, Bool, true, false, not, ◌&&◌, ◌||◌, List,
  [], ◌∷◌, ◌++◌, Option, none, some, ltb, if◌then◌else◌, length, any, filter,
}
use aoni.Base.Int.{ℤ, pos, negsuc}
use aoni.Base.Text.{Text, bytes, text_eq}
use aoni.Base.Foundation.{Foundation}

-- cause is an error of what the handler calls; bad_status has the status and the index of the proxy.
pub data Error : Type 0 where
  cause : ℕ → Error
  body_non_repeatable nil_response : Error
  bad_status : ℕ → ℕ → Error

pub record Response : Type 0 where
  pub status_code : ℕ

-- has_body says whether there is a body other than NoBody, repeatable whether GetBody is not nil,
-- has_config whether the request has a configuration; early_data and alt_svc say whether it has these
-- headers. proxy is the address that its context names, by the index among the parsed proxies.
pub record Request : Type 0 where
  pub method : Text
  pub has_body : Bool
  pub repeatable : Bool
  pub has_config : Bool
  pub allow_non_read_only : Bool
  pub early_data : Bool
  pub alt_svc : Bool
  pub close : Bool
  pub disable_0rtt : Bool
  pub disable_alt_svc : Bool
  pub proxy : Option ℕ

-- What lies outside: the k-th call of the doer, or of the hedged doer, and the k-th call of GetBody.
pub record World : Type 0 where
  pub send : ℕ → Request → Option Response × Option Error
  pub get_body : ℕ → Option Error

abbrev renewed : Option Error → Request → Error ⊎ Request
renewed none r = inr r
renewed (some e) r = inl e

unfoldable pub clone_request : World → ℕ → Request → Error ⊎ Request
clone_request w k r =
    if not r.has_body
    then inr r
    else if not r.repeatable
    then inl body_non_repeatable
    else renewed (w.get_body k) r

-- What a call returns, the requests that were sent, and the counter of the proxies, a uint32, as it
-- leaves it.
pub record Report : Type 0 where
  pub counter : ℕ
  pub resp : Option Response
  pub error : Option Error
  pub sent : List Request

abbrev pub sending : World → ℕ → ℕ → Request → Report
sending w counter k r = record {
  counter = counter;
  resp = (w.send k r).0;
  error = (w.send k r).1;
  sent = r ∷ [];
}

unfoldable pub retry_with_mutation : World → ℕ → ℕ → (Request → Request) → Request → Report
retry_with_mutation w counter k mutate r = elim (clone_request w k r) [
  | inl e ↦ record { counter = counter; resp = none; error = some e; sent = [] }
  | inr cloned ↦ sending w counter k (mutate cloned)
]

unfoldable pub without_0rtt : Request → Request
without_0rtt r = record r { disable_0rtt = true; early_data = false }

unfoldable pub on_new_connection : Request → Request
on_new_connection r = record r { close = true }

unfoldable pub without_alt_svc : Request → Request
without_alt_svc r = record r { disable_alt_svc = true; alt_svc = false }

-- The switch on the status at the end of DispatchRequest.
unfoldable pub recover : World → ℕ → Request → Report → Report
recover w k req first = elim first.resp [
  | none ↦ first
  | some r ↦
      let again =
        λ (mutate : Request → Request). retry_with_mutation w first.counter k mutate req in
      let after = λ (next : Report). record next { sent = first.sent ++ next.sent } in
      if r.status_code == 421
      then after (again without_alt_svc)
      else if r.status_code == 408
      then after (again on_new_connection)
      else if r.status_code == 425
      then after (again without_0rtt)
      else first
]

-- The index of selectNextProxy and the counter after it.
unfoldable pub select_next_proxy : ℕ → ℕ → Bool → ℕ × ℕ
select_next_proxy n counter is_retry =
    let next = if is_retry then (counter + 1) % 2 ^ 32 else counter in (next % n, next)

abbrev named : ℕ → Request → Request
named i r = if r.has_config then record r { proxy = some i } else r

unfoldable pub prepare_request_for_proxy : World → ℕ → ℕ → Request → Error ⊎ Request
prepare_request_for_proxy w k i r =
    if r.has_body && r.repeatable then renewed (w.get_body k) (named i r) else inr (named i r)

unfoldable pub is_gateway_failure : Response → Bool
is_gateway_failure r = r.status_code == 502 || r.status_code == 503

-- What an attempt of the failover ends with: a response for the caller, or an error to go on with.
abbrev pub judge : ℕ → Option Response × Option Error → Response ⊎ Error
judge i (resp, some e) = inr e
judge i (none, none) = inr nil_response
judge i (some r, none) =
    if not (is_gateway_failure r) then inl r else inr (bad_status r.status_code i)

abbrev pub after_attempt : ℕ → Request → Response ⊎ Error → (Error → Report) → Report
after_attempt counter sent (inl r) rest = record {
  counter = counter;
  resp = some r;
  error = none;
  sent = sent ∷ [];
}
after_attempt counter sent (inr e) rest = let r = rest e in record r { sent = sent ∷ r.sent }

abbrev pub attempt : World → ℕ → ℕ × ℕ → Error ⊎ Request → (Error → Report) → Report
attempt w k p (inl e) rest = rest e
attempt w k (i, next) (inr r) rest = after_attempt next r (judge i (w.send k r)) rest

-- The loop of the failover over n proxies with the given number of attempts left.
unfoldable pub failover_loop : World → Request → ℕ → ℕ → ℕ → ℕ → Option Error → Report
failover_loop w req n zero k counter last = record {
  counter = counter;
  resp = none;
  error = last;
  sent = [];
}
failover_loop w req n (suc m) k counter last =
    let (i, next) = select_next_proxy n counter (ltb 0 k) in
    attempt w k (i, next) (prepare_request_for_proxy w k i req)
      (λ e. failover_loop w req n m (suc k) next (some e))

-- The attempts that the loop is allowed; a negative limit allows none.
abbrev pub allowed : Foundation → ℤ → ℕ → ℕ
allowed lib (pos limit) n = lib.coalesce limit n + 1
allowed lib (negsuc limit) n = 0

-- parses says which texts url.Parse accepts.
unfoldable pub execute_with_proxy_failover :
    Foundation → (Text → Bool) → World → List Text → ℤ → ℕ → Request → Report
execute_with_proxy_failover lib parses w proxies limit counter req =
    let n = length (filter parses proxies) in
    if n == 0
    then sending w counter 0 req
    else failover_loop w req n (allowed lib limit n) 0 counter none

-- DispatchRequest. failover is none where the transaction has none; the hedged request and the plain
-- one differ in what World sends with. last is the number of a call after those of the failover.
unfoldable pub dispatch_request :
    Foundation → (Text → Bool) → World → Option (List Text × ℤ) → ℕ → ℕ → Request → Report
dispatch_request lib parses w none counter last req = recover w last req (sending w counter 0 req)
dispatch_request lib parses w (some (proxies, limit)) counter last req =
    recover w last req (execute_with_proxy_failover lib parses w proxies limit counter req)
