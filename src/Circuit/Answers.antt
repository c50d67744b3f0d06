-- ===== src/Circuit/Answers.antt =====
-- middleware/resilience.go: what CircuitBreak returns.
use aoni.Base.{
  ◌≡◌, refl, inl, inr, Bool, true, false, Option, none, some, if◌then◌else◌, Option-cases,
  Bool-cases,
}
use aoni.Base.Text.{Text}
use aoni.Circuit.{
  Error, circuit_open, open_for, Response, Answer, Library, IsBreaker, is_failure, verdict, Call,
  CircuitBreaker, get_breaker, parse_host_from_url, is_open, is_circuit_open, conclude, guarded,
  circuit_break,
}

module _ (lib : Library) (condition : Option (Answer → Bool)) where
  -- The condition takes each error for a failure.
  abbrev pub FlagsErrors : Type 0
  FlagsErrors = (resp : Option Response) (e : Error) → is_failure condition (resp, some e) ≡ true

  -- The error of a client is not that of an open breaker.
  abbrev pub IsOwn : Option Error → Type 0
  IsOwn none = Unit
  IsOwn (some e) = (is_open lib e ≡ false) × (is_circuit_open lib e ≡ false)

  conclude-verdict :
      (host : Text) (resp : Option Response) (err : Option Error)
      → FlagsErrors
      → is_open lib circuit_open ≡ false
      → IsOwn err
      → conclude lib host resp (verdict condition (resp, err)) ≡ (resp, err)
  unfolding conclude verdict
  conclude-verdict host resp (some e) flags apart (a, b) = rw (flags resp e, a, b) refl
  conclude-verdict host resp none flags apart own =
      elim (Bool-cases (is_failure condition (resp, none))) [
        | inl f ↦ rw (f, apart) refl
        | inr f ↦ rw f refl
      ]

-- When the condition takes each error for a failure, as the default does, and the error of the client
-- is not itself that of an open breaker: CircuitBreak returns what the client returns if the breaker
-- lets the request through, and otherwise no response and an error that names the host.
pub circuit_break-answers :
    (lib : Library) (condition : Option (Answer → Bool)) (call : Call) (cb : CircuitBreaker lib)
    → IsBreaker lib
    → FlagsErrors lib condition
    → IsOwn lib condition call.answer.1
    → (circuit_break lib condition call cb).0.answer ≡ (
        if (circuit_break lib condition call cb).0.called
        then call.answer
        else (none, some (open_for (parse_host_from_url lib call.url))))
unfolding circuit_break guarded is_open conclude
circuit_break-answers lib condition call cb is flags own =
    let host = parse_host_from_url lib call.url in
    let b = (get_breaker lib host cb).0 in
    let entered = lib.enter call.entered_at b in
    elim (Option-cases entered.0) [
      | inl e ↦
          rw (e, is.leave-same call.left_at (verdict condition call.answer) entered.1)
            (conclude-verdict lib condition host call.answer.0 call.answer.1 flags
              (rw is.distinct refl) own)
      | inr (x, e) ↦ rw (e, is.enter-open call.entered_at b x e) refl
    ]
