-- ===== src/Stream/Sse/Ending.antt =====
-- realtime/stream/stream.go: the loop over a response comes to an end.
use aoni.Base.{
  ℕ, zero, suc, ◌+◌, ◌≤◌, ◌<◌, ◌≡◌, ◌≢◌, refl, inl, inr, List, [], ◌∷◌, ◌++◌, Option, none, some,
  arith, length, Option-cases,
}
use aoni.Base.Text.{Text}
use aoni.Stream.Lines.{Chunk}
use aoni.Stream.Sse.{
  SseEvent, no_event, parse_sse_line, deliver, Next, got, stopped, at_end, next_event_from,
  next_event, eof, failed, bad_payload, Session, out_of_fuel, consume_sse_response,
  dispatch_sse_event, note_event,
}

-- An event takes a chunk at least, unless a part of a line is left.
abbrev missing : Text → ℕ
missing [] = 1
missing (c ∷ s) = 0

deliver-rest :
    (ev : SseEvent) (rest : List Chunk) (ev' : SseEvent) (rest' : List Chunk)
    → deliver ev rest ≡ got ev' rest'
    → rest' ≡ rest
deliver-rest ev rest ev' rest' h = ground arith

at_end-rest :
    (end : Option ℕ) (line : Text) (ev ev' : SseEvent) (rest : List Chunk)
    → at_end end line ev ≡ got ev' rest
    → length rest + missing line ≤ 0
at_end-rest (some e) line ev ev' rest h = cc
at_end-rest none [] ev ev' rest h = cc
at_end-rest none (c ∷ line) ev ev' rest h =
    ground (arith, deliver-rest (parse_sse_line (c ∷ line) ev) [] ev' rest)

next_event_from-shorter :
    (end : Option ℕ) (line : Text) (ev : SseEvent) (chunks : List Chunk) (ev' : SseEvent)
    (rest : List Chunk)
    → next_event_from end line ev chunks ≡ got ev' rest
    → length rest + missing line ≤ length chunks
unfolding next_event_from
next_event_from-shorter end line ev [] ev' rest h = at_end-rest end line ev ev' rest h
next_event_from-shorter end line ev (c ∷ chunks) ev' rest h = ground (
  arith,
  next_event_from-shorter end (line ++ c.text) ev chunks ev' rest,
  next_event_from-shorter end [] ev chunks ev' rest,
  next_event_from-shorter end [] (parse_sse_line (line ++ c.text) ev) chunks ev' rest,
  deliver-rest ev chunks ev' rest,
)

-- An event that NextEvent returns has used up a chunk of the body.
pub next_event-shorter :
    (end : Option ℕ) (chunks : List Chunk) (ev : SseEvent) (rest : List Chunk)
    → next_event end chunks ≡ got ev rest
    → length rest < length chunks
unfolding next_event
next_event-shorter end chunks ev rest h =
    ground (arith, next_event_from-shorter end [] no_event chunks ev rest)

consume_sse_response-step {ℓ} :
    {A : Type ℓ} (decode : SseEvent → Option A) (fuel : ℕ) (end : Option ℕ) (chunks : List Chunk)
    (s : Session A)
    → ((rest : List Chunk) (s' : Session A)
        → length rest < length chunks
        → consume_sse_response decode fuel end rest s' ≢ out_of_fuel)
    → (n : Next) → next_event end chunks ≡ n
    → consume_sse_response decode (suc fuel) end chunks s ≢ out_of_fuel
unfolding consume_sse_response
consume_sse_response-step decode fuel end chunks s ih (stopped eof rest) e =
    rw (consume_sse_response, e) (λ h. cc)
consume_sse_response-step decode fuel end chunks s ih (stopped (failed x) rest) e =
    rw (consume_sse_response, e) (λ h. cc)
consume_sse_response-step decode fuel end chunks s ih (stopped bad_payload rest) e =
    rw (consume_sse_response, e) (λ h. cc)
consume_sse_response-step decode fuel end chunks s ih (got ev rest) e =
    elim (Option-cases (dispatch_sse_event decode ev (note_event decode ev s))) [
      | inl n ↦ rw (consume_sse_response, e, n) (λ h. cc)
      | inr (s', d) ↦
          rw (consume_sse_response, e, d) (ih rest s' (next_event-shorter end chunks ev rest e))
    ]

-- The loop over a response terminates: with one more unit of fuel than the reader has chunks, it
-- comes to an end, whatever the decoder does, whatever the body holds and however the connection
-- ends.
pub consume_sse_response-terminates {ℓ} :
    {A : Type ℓ} (decode : SseEvent → Option A) (fuel : ℕ) (end : Option ℕ) (chunks : List Chunk)
    (s : Session A)
    → length chunks < fuel
    → consume_sse_response decode fuel end chunks s ≢ out_of_fuel
consume_sse_response-terminates decode zero end chunks s h = ground arith
consume_sse_response-terminates decode (suc fuel) end chunks s h =
    consume_sse_response-step decode fuel end chunks s
      (λ rest s' shorter. consume_sse_response-terminates decode fuel end rest s' (omega arith))
      (next_event end chunks) refl

consume_sse_response-agree_step {ℓ} :
    {A : Type ℓ} (decode : SseEvent → Option A) (f g : ℕ) (end : Option ℕ) (chunks : List Chunk)
    (s : Session A)
    → ((rest : List Chunk) (s' : Session A)
        → consume_sse_response decode f end rest s' ≢ out_of_fuel
        → consume_sse_response decode g end rest s' ≢ out_of_fuel
        → consume_sse_response decode f end rest s' ≡ consume_sse_response decode g end rest s')
    → (n : Next) → next_event end chunks ≡ n
    → consume_sse_response decode (suc f) end chunks s ≢ out_of_fuel
    → consume_sse_response decode (suc g) end chunks s ≢ out_of_fuel
    → consume_sse_response decode (suc f) end chunks s
      ≡ consume_sse_response decode (suc g) end chunks s
unfolding consume_sse_response
consume_sse_response-agree_step decode f g end chunks s ih (stopped eof rest) e hf hg =
    rw (consume_sse_response, e) refl
consume_sse_response-agree_step decode f g end chunks s ih (stopped (failed x) rest) e hf hg =
    rw (consume_sse_response, e) refl
consume_sse_response-agree_step decode f g end chunks s ih (stopped bad_payload rest) e hf hg =
    rw (consume_sse_response, e) refl
consume_sse_response-agree_step decode f g end chunks s ih (got ev rest) e hf hg =
    elim (Option-cases (dispatch_sse_event decode ev (note_event decode ev s))) [
      | inl n ↦ rw (consume_sse_response, e, n) refl
      | inr (s', d) ↦
          rw (consume_sse_response, e, d)
            (ih rest s' (λ h. hf (rw (consume_sse_response, e, d) h))
              (λ h. hg (rw (consume_sse_response, e, d) h)))
    ]

-- The result does not depend on the fuel, if it is enough.
pub consume_sse_response-agree {ℓ} :
    {A : Type ℓ} (decode : SseEvent → Option A) (f g : ℕ) (end : Option ℕ) (chunks : List Chunk)
    (s : Session A)
    → consume_sse_response decode f end chunks s ≢ out_of_fuel
    → consume_sse_response decode g end chunks s ≢ out_of_fuel
    → consume_sse_response decode f end chunks s ≡ consume_sse_response decode g end chunks s
unfolding consume_sse_response
consume_sse_response-agree decode zero g end chunks s hf hg = elim (hf refl) [ ]
consume_sse_response-agree decode (suc f) zero end chunks s hf hg = elim (hg refl) [ ]
consume_sse_response-agree decode (suc f) (suc g) end chunks s hf hg =
    consume_sse_response-agree_step decode f g end chunks s
      (λ rest s'. consume_sse_response-agree decode f g end rest s') (next_event end chunks) refl hf
      hg
