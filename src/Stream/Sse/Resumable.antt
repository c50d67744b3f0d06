-- ===== src/Stream/Sse/Resumable.antt =====
-- realtime/stream/stream.go: ResumableSSE, which opens the stream again when a response ends, and after
-- a request that fails, up to the limit of failures in a row.
use aoni.Base.{
  ℕ, suc, ◌+◌, Bool, true, false, List, [], ◌∷◌, Option, ltb, leb, ◌||◌, ◌==◌, ◌&&◌, if◌then◌else◌,
  length,
}
use aoni.Base.Int.{ℤ}
use aoni.Base.Text.{Text, is_empty, bytes}
use aoni.Stream.Lines.{Chunk}
use aoni.Stream.Sse.{
  SseEvent, Error, Session, Consumed, ended, broken, out_of_fuel, consume_sse_response,
}

-- What the requester gives: an error, or a response with its status, the end of its connection and
-- the chunks of its body.
pub data Reply : Type 0 where
  no_response : ℕ → Reply
  response : ℕ → Option ℕ → List Chunk → Reply

pub data Stream : Type 0 where
  failure : Stream
  stream : ℕ → Option ℕ → List Chunk → Stream

unfoldable pub get : Reply → Stream
get (no_response e) = failure
get (response status end chunks) =
    if ltb status 200 || leb 300 status then failure else stream status end chunks

-- A header of the request, and the modifiers of the caller.
pub data Modifier : Type 0 where
  with_header : Text → Text → Modifier
  given : ℕ → Modifier

unfoldable pub build_sse_request_modifiers : List Modifier → Text → List Modifier
build_sse_request_modifiers mods last_event_id =
    let tail =
      if is_empty last_event_id
      then mods
      else with_header (bytes "Last-Event-ID") last_event_id ∷ mods in
    with_header (bytes "Accept") (bytes "text/event-stream")
    ∷ with_header (bytes "Cache-Control") (bytes "no-cache")
    ∷ with_header (bytes "Connection") (bytes "keep-alive")
    ∷ tail

-- The end of the goroutine: what it has sent to the channel of errors. cancelled is the context's.
pub data Outcome : Type 0 where
  max_reconnects failed_request cancelled no_content : Outcome
  stream_failed : Error → Outcome
  no_fuel : Outcome

-- The goroutine's trace: the modifiers of its requests, its sleeps, the session, and the outcome.
pub record Run {ℓ} (A : Type ℓ) : Type ℓ where
  pub requests : List (List Modifier)
  pub sleeps : List ℤ
  pub session : Session A
  pub outcome : Outcome

abbrev pub is_exhausted : ℕ → ℕ → Bool
is_exhausted max attempts = ltb 0 max && ltb max attempts

module _ {ℓ} {A : Type ℓ} (decode : SseEvent → Option A) (mods : List Modifier) (max : ℕ) where
  abbrev pub requested : Session A → Run A → Run A
  requested s r = record r {
    requests = build_sse_request_modifiers mods s.last_event_id ∷ r.requests;
  }

  abbrev pub slept : Session A → Run A → Run A
  slept s r = record r { sleeps = s.retry_delay ∷ r.sleeps }

  abbrev pub stop : Outcome → Session A → Run A
  stop o s = record { requests = []; sleeps = []; session = s; outcome = o }

  abbrev pub after_response : ℕ → Consumed A → (Session A → Run A) → Session A → Run A
  after_response status (ended s) go s₀ =
      if status == 204 then stop no_content s else slept s (go s)
  after_response status (broken e s) go s₀ = stop (stream_failed e) s
  after_response status out_of_fuel go s₀ = stop no_fuel s₀

  -- The loop of the goroutine: the context is cancelled when the replies run out.
  unfoldable pub resumable_sse : List Reply → ℕ → Session A → Run A
  resumable_sse [] attempts s = stop cancelled s
  resumable_sse (reply ∷ replies) attempts s = requested s (elim (get reply) [
    | failure ↦ elim (is_exhausted max (attempts + 1)) [
      | true ↦ stop max_reconnects s
      | false ↦ slept s (resumable_sse replies (attempts + 1) s)
    ]
    | stream status end chunks ↦
        after_response status (consume_sse_response decode (suc (length chunks)) end chunks s)
          (λ s'. resumable_sse replies 0 s') s
  ])
