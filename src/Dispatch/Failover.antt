-- ===== src/Dispatch/Failover.antt =====
-- pipeline/resilience.go: the failover gets through to a proxy that works.
use aoni.Base.{
  ℕ, zero, suc, ◌+◌, ◌%◌, ◌^◌, ◌<◌, ◌==◌, ◌≡◌, ◌≢◌, refl, sym, ap, ◌∙◌, ◌⊎◌, inl, inr, Bool, true,
  false, ◌&&◌, List, Option, none, some, arith, ltb, if◌then◌else◌, length, filter, Bool-cases,
}
use aoni.Base.Int.{pos}
use aoni.Base.Modular.{reaches}
use aoni.Base.Text.{Text}
use aoni.Base.Foundation.{Foundation}
use aoni.Dispatch.{
  Error, Response, Request, World, Report, select_next_proxy, prepare_request_for_proxy,
  is_gateway_failure, judge, after_attempt, failover_loop, execute_with_proxy_failover,
}

-- A response and no error, and the status is neither 502 nor 503.
pub record IsAnswered (r : Report) : Type 0 where
  pub response : Response
  pub returned : r.resp ≡ some response
  pub no_error : r.error ≡ none
  pub works : is_gateway_failure response ≡ false

step_of : ℕ → ℕ
step_of k = if ltb 0 k then 1 else 0

select_next_proxy-eq :
    (n counter k : ℕ)
    → counter + step_of k < 2 ^ 32
    → select_next_proxy n counter (ltb 0 k) ≡ ((counter + step_of k) % n, counter + step_of k)
unfolding select_next_proxy step_of
select_next_proxy-eq n counter k h = elim (Bool-cases (ltb 0 k)) [
  | inl e ↦ let same : (counter + 1) % 2 ^ 32 ≡ counter + 1 = ground (arith, e) in rw (e, same) refl
  | inr e ↦ let same : counter + 0 ≡ counter = omega arith in rw (e, same) refl
]

judge-works :
    (i : ℕ) (resp : Option Response) (error : Option Error) (r : Response)
    → judge i (resp, error) ≡ inl r
    → is_gateway_failure r ≡ false
judge-works i resp (some e) r h = absurd (cc h)
judge-works i none none r h = absurd (cc h)
judge-works i (some x) none r h = elim (Bool-cases (is_gateway_failure x)) [
  | inl q ↦ absurd (cc (rw q at h))
  | inr q ↦ let same : x ≡ r = cc (rw q at h) in ap is_gateway_failure (sym same) ∙ q
]

after_attempt-IsAnswered :
    (c i : ℕ) (sent : Request) (x : Option Response × Option Error) (o : Response ⊎ Error)
    (rest : Error → Report)
    → judge i x ≡ o
    → ((e : Error) → o ≡ inr e → IsAnswered (rest e))
    → IsAnswered (after_attempt c sent o rest)
after_attempt-IsAnswered c i sent (resp, error) (inl r) rest e h = record {
  response = r;
  returned = refl;
  no_error = refl;
  works = judge-works i resp error r e;
}
after_attempt-IsAnswered c i sent x (inr e) rest q h =
    let a = h e refl in
    record { response = a.response; returned = a.returned; no_error = a.no_error; works = a.works }

-- A proxy, by its index, through which each request that names it is answered.
pub record Works (w : World) (j : ℕ) : Type 0 where
  pub reply : ℕ → Request → Response
  pub answers : (k : ℕ) (r : Request) → r.proxy ≡ some j → w.send k r ≡ (some (reply k r), none)
  pub sound : (k : ℕ) (r : Request) → is_gateway_failure (reply k r) ≡ false

named : ℕ → Request → Request
named i r = record r { proxy = some i }

prepare-named :
    (w : World) (k i : ℕ) (req : Request)
    → req.has_config ≡ true
    → w.get_body k ≡ none
    → prepare_request_for_proxy w k i req ≡ inr (named i req)
unfolding prepare_request_for_proxy named
prepare-named w k i req h b = elim (Bool-cases (req.has_body && req.repeatable)) [
  | inl q ↦ simp (q, b, h) refl
  | inr q ↦ simp (q, h) refl
]

module _ (w : World) (req : Request) (n j : ℕ) (j_lt : j < n) (works : Works w j)
    (cfg : req.has_config ≡ true) (bodies : (k : ℕ) → w.get_body k ≡ none) where
  -- The turn of the proxy comes among the m attempts that are left.
  Comes : ℕ → ℕ → ℕ → Type 0
  Comes m k counter =
      (counter + step_of k + m < 2 ^ 32) × ((t : ℕ) × (t < m) × ((counter + step_of k + t) % n ≡ j))

  Comes-turn :
      (m k counter t : ℕ)
      → counter + step_of k + suc m < 2 ^ 32
      → t < suc m
      → (counter + step_of k + t) % n ≡ j
      → (counter + step_of k) % n ≢ j
      → Comes m (suc k) (counter + step_of k)
  unfolding Comes step_of
  Comes-turn m k counter zero small lt index moved =
      absurd (moved (ap (λ x. x % n) (omega arith) ∙ index))
  Comes-turn m k counter (suc t) small lt index moved =
      let on : ltb 0 (suc k) ≡ true = ground arith in
      rw on (omega arith, (t, omega arith, ap (λ x. x % n) (omega arith) ∙ index))

  answered_by :
      (i k : ℕ) → i ≡ j → judge i (w.send k (named i req)) ≡ inl (works.reply k (named i req))
  unfolding named
  answered_by i k e =
      let a = works.answers k (named i req) (ap some e) in
      let s = works.sound k (named i req) in rw (a, s) refl

  failover_loop-Works :
      (m k counter : ℕ) (last : Option Error)
      → Comes m k counter
      → IsAnswered (failover_loop w req n m k counter last)
  unfolding failover_loop Comes
  failover_loop-Works zero k counter last (small, (t, lt, index)) = absurd (omega arith)
  failover_loop-Works (suc m) k counter last (small, (t, lt, index)) =
      let c = counter + step_of k in
      let i = c % n in
      rw (select_next_proxy-eq n counter k (omega arith), prepare-named w k i req cfg (bodies k))
        (after_attempt-IsAnswered c i (named i req) (w.send k (named i req)) _ _ refl (λ e failed.
          let moved : i ≢ j = λ same. absurd (cc (answered_by i k same, failed)) in
          failover_loop-Works m (suc k) c (some e) (Comes-turn m k counter t small lt index moved)))

-- With no retry limit of its own, the failover returns a response whose status is neither 502 nor 503
-- and no error, when there is a proxy through which each request is answered so, whatever the other
-- proxies do. The request has a configuration, GetBody does not fail, and the counter does not wrap
-- around meanwhile.
pub execute_with_proxy_failover-Works :
    (lib : Foundation) (parses : Text → Bool) (w : World) (proxies : List Text) (counter j : ℕ)
    (req : Request)
    → j < length (filter parses proxies)
    → Works w j
    → req.has_config ≡ true
    → ((k : ℕ) → w.get_body k ≡ none)
    → counter + length (filter parses proxies) + 2 < 2 ^ 32
    → IsAnswered (execute_with_proxy_failover lib parses w proxies (pos 0) counter req)
unfolding execute_with_proxy_failover Comes step_of
execute_with_proxy_failover-Works lib parses w proxies counter j req h works cfg bodies small =
    let n = length (filter parses proxies) in
    let found : (n == 0) ≡ false = ground arith in
    let (t, soon, index) = reaches counter n j h in
    let first : counter + 0 + t ≡ counter + t = omega arith in
    rw (found, lib.coalesce_zero n)
      (failover_loop-Works w req n j h works cfg bodies (n + 1) 0 counter none
        (omega arith, (t, omega arith, ap (λ x. x % n) first ∙ index)))
