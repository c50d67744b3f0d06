-- ===== src/Dispatch/Tests.antt =====
-- Runs and instances for the dispatch of requests.
use aoni.Base.{
  ℕ, ◌≡◌, refl, Bool, true, false, List, [], ◌∷◌, Option, none, some, arith, ◌==◌, if◌then◌else◌,
  length,
}
use aoni.Base.Int.{pos, negsuc}
use aoni.Base.Text.{Text, bytes}
use aoni.Base.Sample.{library}
use aoni.Dispatch.{
  Error, cause, Response, Request, World, clone_request, retry_with_mutation, without_0rtt, recover,
  is_gateway_failure, select_next_proxy, prepare_request_for_proxy, failover_loop,
  execute_with_proxy_failover, dispatch_request,
}
use aoni.Dispatch.Hedging.{HedgeResponse, Event, timer, result, loser_of, dispatch_hedging_attempts}
use aoni.Dispatch.Race.{verdict, verdict_of, dispatch_hedging_attempts-verdict}
use aoni.Dispatch.Failover.{IsAnswered, Works, execute_with_proxy_failover-Works}

abbrev get_request : Request
get_request = record {
  method = bytes "GET";
  has_body = false;
  repeatable = false;
  has_config = true;
  allow_non_read_only = false;
  early_data = true;
  alt_svc = false;
  close = false;
  disable_0rtt = false;
  disable_alt_svc = false;
  proxy = none;
}

abbrev reply_with : ℕ → Option Response × Option Error
reply_with n = (some (record { status_code = n }), none)

abbrev names : ℕ → Request → Bool
names j r = elim r.proxy [ none ↦ false | some i ↦ i == j ]

-- Only the last of three proxies works.
abbrev world : World
world = record {
  send = λ k r.
      if names 2 r
      then reply_with 200
      else if names 1 r
      then reply_with 502
      else (none, some (cause 1));
  get_body = λ k. none;
}

last-Works : Works world 2
unfolding is_gateway_failure
last-Works = record {
  reply = λ k r. record { status_code = 200 };
  answers = λ k r h. rw h refl;
  sound = λ k r. refl;
}

abbrev proxies : List Text
proxies = bytes "a" ∷ bytes "b" ∷ bytes "c" ∷ []

execute_with_proxy_failover-Works_example :
    IsAnswered (execute_with_proxy_failover library (λ t. true) world proxies (pos 0) 0 get_request)
execute_with_proxy_failover-Works_example =
    execute_with_proxy_failover-Works library (λ t. true) world proxies 0 2 get_request
      (omega arith) last-Works refl (λ k. refl) (omega arith)

three_attempts :
    length
      (execute_with_proxy_failover library (λ t. true) world proxies (pos 0) 0 get_request).sent
    ≡ 3
unfolding execute_with_proxy_failover failover_loop select_next_proxy prepare_request_for_proxy
    is_gateway_failure
three_attempts = refl

-- A negative limit leaves neither a response nor an error.
nothing_tried :
    (execute_with_proxy_failover library (λ t. true) world proxies (negsuc 0) 0 get_request).error
    ≡ none
unfolding execute_with_proxy_failover failover_loop
nothing_tried = refl

-- The first answer is 425 until the header Early-Data is gone.
abbrev early : World
early = record {
  send = λ k r. if r.early_data then reply_with 425 else reply_with 200;
  get_body = λ k. none;
}

recovered :
    (dispatch_request library (λ t. true) early none 0 1 get_request).resp
    ≡ some (record { status_code = 200 })
unfolding dispatch_request recover retry_with_mutation clone_request without_0rtt
recovered = refl

abbrev second_answer : HedgeResponse
second_answer = record { body = 7; context = some 2 }

abbrev schedule : List Event
schedule = timer ∷ result none (some (cause 1)) ∷ result (some second_answer) none ∷ []

dispatch_hedging_attempts-verdict_example :
    verdict_of (dispatch_hedging_attempts schedule) ≡ verdict none schedule
dispatch_hedging_attempts-verdict_example = dispatch_hedging_attempts-verdict schedule

-- A response of the second_answer attempt that does not name its request has its own context cancelled.
nameless : HedgeResponse
nameless = record { body = 7; context = none }

own_context : loser_of nameless ≡ 2
unfolding loser_of nameless
own_context = refl
