-- ===== src/Stream/Sse/Whole.antt =====
-- realtime/stream/stream.go: a whole response of messages, as consumeSSEResponse reads it.
use mathlib.Core.List.{append_assoc, append-nil}
use aoni.Base.{
  ℕ, suc, ◌≡◌, refl, ◌∙◌, true, false, List, [], ◌∷◌, ◌++◌, Option, none, some, if◌then◌else◌, map,
  length, All,
}
use aoni.Base.Text.{Text, is_empty}
use aoni.Stream.Lines.{Chunk, chunks_of, chunks_from}
use aoni.Stream.Sse.{
  SseEvent, is_done, is_pending, deliver, got, stopped, eof, next_event, next_event_from, Session,
  ended, note_event, dispatch_sse_event, consume_sse_response,
}
use aoni.Stream.Sse.RoundTrip.{
  Message, IsMessage, render, event_of, next_event-render, is_pending-event_of,
}

abbrev pub render_all : List Message → Text
render_all [] = []
render_all (m ∷ ms) = render m (render_all ms)

-- A message that is written as the standard wants it, is not the completion signal, and that the
-- decoder takes.
pub record IsReadable {ℓ} {A : Type ℓ} (decode : SseEvent → Option A) (value : SseEvent → A)
    (m : Message) : Type ℓ where
  pub message : IsMessage m
  pub not_done : is_done (event_of m) ≡ false
  pub decodes : decode (event_of m) ≡ some (value (event_of m))

-- The id of the last message that has one.
abbrev pub last_id : Text → List Message → Text
last_id id [] = id
last_id id (m ∷ ms) = last_id (if is_empty m.id then id else m.id) ms

next_event-empty : next_event none (chunks_of []) ≡ stopped eof []
unfolding next_event next_event_from chunks_from
next_event-empty = refl

deliver-got :
    (ev : SseEvent) (rest : List Chunk) → is_done ev ≡ false → deliver ev rest ≡ got ev rest
deliver-got ev rest h = rw h refl

module _ {ℓ} {A : Type ℓ} (decode : SseEvent → Option A) (value : SseEvent → A) where
  -- The session after the messages.
  abbrev pub after_all : List Message → Session A → Session A
  after_all ms s = record s {
    last_event_id = last_id s.last_event_id ms;
    sent = s.sent ++ map (λ m. value (event_of m)) ms;
  }

  dispatch_sse_event-value :
      (ev : SseEvent) (s : Session A) (a : A)
      → is_pending ev ≡ true
      → is_done ev ≡ false
      → decode ev ≡ some a
      → dispatch_sse_event decode ev s ≡ some (record s { sent = s.sent ++ (a ∷ []) })
  unfolding dispatch_sse_event
  dispatch_sse_event-value ev s a p d h = rw (p, d, h) refl

  consume_sse_response-got :
      (fuel : ℕ) (end : Option ℕ) (chunks rest : List Chunk) (ev : SseEvent) (s s' : Session A)
      → next_event end chunks ≡ got ev rest
      → dispatch_sse_event decode ev (note_event decode ev s) ≡ some s'
      → consume_sse_response decode (suc fuel) end chunks s
        ≡ consume_sse_response decode fuel end rest s'
  unfolding consume_sse_response
  consume_sse_response-got fuel end chunks rest ev s s' e d = rw (consume_sse_response, e, d) refl

  consume_sse_response-eof :
      (fuel : ℕ) (end : Option ℕ) (chunks rest : List Chunk) (s : Session A)
      → next_event end chunks ≡ stopped eof rest
      → consume_sse_response decode (suc fuel) end chunks s ≡ ended s
  unfolding consume_sse_response
  consume_sse_response-eof fuel end chunks rest s e = rw (consume_sse_response, e) refl

  consume_sse_response-render :
      (fuel : ℕ) (m : Message) (rest : Text) (s : Session A)
      → IsReadable decode value m
      → consume_sse_response decode (suc fuel) none (chunks_of (render m rest)) s
        ≡ consume_sse_response decode fuel none (chunks_of rest) (after_all (m ∷ []) s)
  consume_sse_response-render fuel m rest s h =
      consume_sse_response-got fuel none (chunks_of (render m rest)) (chunks_of rest) (event_of m) s
        _
        (next_event-render none m rest h.message
          ∙ deliver-got (event_of m) (chunks_of rest) h.not_done)
        (dispatch_sse_event-value (event_of m) (note_event decode (event_of m) s)
          (value (event_of m)) (is_pending-event_of m h.message) h.not_done h.decodes)

  -- A response that holds these messages is read to its end: the values of all of them are sent, in
  -- their order, and the id kept for a reconnection is the last one that is not empty. The decoder
  -- takes every message, and none is the completion signal.
  pub consume_sse_response-render_all :
      (ms : List Message) (s : Session A)
      → All (IsReadable decode value) ms
      → consume_sse_response decode (suc (length ms)) none (chunks_of (render_all ms)) s
        ≡ ended (after_all ms s)
  consume_sse_response-render_all [] s h =
      consume_sse_response-eof 0 none (chunks_of []) [] s next_event-empty
      ∙ rw (append-nil s.sent) refl
  consume_sse_response-render_all (m ∷ ms) s (hm, hs) =
      consume_sse_response-render (suc (length ms)) m (render_all ms) s hm
      ∙ consume_sse_response-render_all ms (after_all (m ∷ []) s) hs
      ∙ rw (append_assoc s.sent (value (event_of m) ∷ []) (map (λ x. value (event_of x)) ms)) refl
