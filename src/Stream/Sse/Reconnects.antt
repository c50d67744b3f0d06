-- ===== src/Stream/Sse/Reconnects.antt =====
-- realtime/stream/stream.go: what ResumableSSE keeps over a reconnection, and when it gives up.
use aoni.Base.{
  ℕ, zero, suc, ◌+◌, ◌≤◌, ◌<◌, ◌≡◌, ◌≢◌, refl, ap, ◌∙◌, true, false, List, [], ◌∷◌, ◌++◌, Option,
  none, arith, All, ◌==◌, length,
}
use aoni.Stream.Lines.{Chunk, chunks_of}
use aoni.Stream.Sse.{SseEvent, Session, ended, consume_sse_response}
use aoni.Stream.Sse.Ending.{consume_sse_response-terminates, consume_sse_response-agree}
use aoni.Stream.Sse.RoundTrip.{Message}
use aoni.Stream.Sse.Whole.{
  IsReadable, render_all, last_id, after_all, consume_sse_response-render_all,
}
use aoni.Stream.Sse.Resumable.{
  Reply, response, failure, stream, get, Modifier, build_sse_request_modifiers, Outcome,
  max_reconnects, Run, is_exhausted, requested, slept, stop, resumable_sse,
}

get-stream :
    (status : ℕ) (end : Option ℕ) (chunks : List Chunk)
    → 200 ≤ status
    → status < 300
    → get (response status end chunks) ≡ stream status end chunks
unfolding get
get-stream status end chunks low high = ground arith

module _ {ℓ} {A : Type ℓ} (decode : SseEvent → Option A) (mods : List Modifier) (max : ℕ) where
  resumable_sse-refused :
      (reply : Reply) (replies : List Reply) (attempts : ℕ) (s : Session A)
      → get reply ≡ failure
      → is_exhausted max (attempts + 1) ≡ false
      → resumable_sse decode mods max (reply ∷ replies) attempts s
        ≡ requested decode mods max s
            (slept decode mods max s (resumable_sse decode mods max replies (attempts + 1) s))
  unfolding resumable_sse
  resumable_sse-refused reply replies attempts s e h = rw (e, h) refl

  resumable_sse-exhausted :
      (reply : Reply) (replies : List Reply) (attempts : ℕ) (s : Session A)
      → get reply ≡ failure
      → is_exhausted max (attempts + 1) ≡ true
      → resumable_sse decode mods max (reply ∷ replies) attempts s
        ≡ requested decode mods max s (stop decode mods max max_reconnects s)
  unfolding resumable_sse
  resumable_sse-exhausted reply replies attempts s e h = rw (e, h) refl

  -- A goroutine that has failed to connect n times in a row.
  abbrev failed_run : ℕ → Outcome → Session A → Run A
  failed_run zero o s = requested decode mods max s (stop decode mods max o s)
  failed_run (suc n) o s = requested decode mods max s (slept decode mods max s (failed_run n o s))

  gives_up :
      (replies more : List Reply) (last : Reply) (attempts : ℕ) (s : Session A)
      → All (λ r. get r ≡ failure) replies
      → get last ≡ failure
      → length replies + attempts ≡ max
      → 0 < max
      → resumable_sse decode mods max (replies ++ (last ∷ more)) attempts s
        ≡ failed_run (length replies) max_reconnects s
  gives_up [] more last attempts s h e count pos =
      resumable_sse-exhausted last more attempts s e (ground arith)
  gives_up (r ∷ replies) more last attempts s (hr, h) e count pos =
      resumable_sse-refused r (replies ++ (last ∷ more)) attempts s hr (ground arith)
      ∙ ap (λ run. requested decode mods max s (slept decode mods max s run))
          (gives_up replies more last (attempts + 1) s h e (omega arith) pos)

  failed_run-length :
      (n : ℕ) (o : Outcome) (s : Session A)
      → (length (failed_run n o s).requests ≡ n + 1)
        × ((length (failed_run n o s).sleeps ≡ n)
            × (((failed_run n o s).session ≡ s) × ((failed_run n o s).outcome ≡ o)))
  failed_run-length zero o s = (refl, (refl, (refl, refl)))
  failed_run-length (suc n) o s =
      let (r, (d, (e, f))) = failed_run-length n o s in (ground arith, (ground arith, (e, f)))

  -- With a limit of reconnections that is not 0, the goroutine gives up at the request that follows as
  -- many refused ones in a row as the limit: it has then sent one request more than the limit, has
  -- slept as many times as the limit, and the session is as it was. (A request is refused if the
  -- requester fails, or the status is not of the range 200 to 299.)
  pub resumable_sse-gives_up :
      (replies more : List Reply) (last : Reply) (s : Session A)
      → All (λ r. get r ≡ failure) replies
      → get last ≡ failure
      → length replies ≡ max
      → 0 < max
      → let run = resumable_sse decode mods max (replies ++ (last ∷ more)) 0 s in
        (length run.requests ≡ max + 1)
        × ((length run.sleeps ≡ max) × ((run.session ≡ s) × (run.outcome ≡ max_reconnects)))
  resumable_sse-gives_up replies more last s h e count pos =
      rw (gives_up replies more last 0 s h e (omega arith) pos, ← count)
        (failed_run-length (length replies) max_reconnects s)

  resumable_sse-request :
      (reply : Reply) (more : List Reply) (attempts : ℕ) (s : Session A)
      → (tail : List (List Modifier)) × ((resumable_sse decode mods max
            (reply ∷ more)
            attempts
            s).requests
          ≡ build_sse_request_modifiers mods s.last_event_id ∷ tail)
  unfolding resumable_sse
  resumable_sse-request reply more attempts s = (_, refl)

  resumable_sse-ended :
      (status : ℕ) (end : Option ℕ) (chunks : List Chunk) (more : List Reply) (attempts : ℕ)
      (s s' : Session A)
      → get (response status end chunks) ≡ stream status end chunks
      → (status == 204) ≡ false
      → consume_sse_response decode (suc (length chunks)) end chunks s ≡ ended s'
      → resumable_sse decode mods max (response status end chunks ∷ more) attempts s
        ≡ requested decode mods max s
            (slept decode mods max s' (resumable_sse decode mods max more 0 s'))
  unfolding resumable_sse
  resumable_sse-ended status end chunks more attempts s s' e h c = rw (e, c, h) refl

  module _ (value : SseEvent → A) where
    consume-render_all :
        (ms : List Message) (s : Session A)
        → All (IsReadable decode value) ms
        → consume_sse_response decode
            (suc (length (chunks_of (render_all ms))))
            none
            (chunks_of (render_all ms))
            s
          ≡ ended (after_all decode value ms s)
    consume-render_all ms s h =
        let e = consume_sse_response-render_all decode value ms s h in
        let chunks = chunks_of (render_all ms) in
        consume_sse_response-agree decode (suc (length chunks)) (suc (length ms)) none chunks s
          (consume_sse_response-terminates decode (suc (length chunks)) none chunks s (omega arith))
          (λ o. cc)
        ∙ e

    -- A response that holds messages and then ends is followed, after the retry delay, by a request
    -- that carries the id of the last message that had one, and the failures counted before are
    -- forgotten: the run goes on as one that starts after those messages, all of whose values it has
    -- sent. The status is of the range 200 to 299 but not 204, the decoder takes every message, and
    -- none is the completion signal.
    pub resumable_sse-resumes :
        (ms : List Message) (status : ℕ) (reply : Reply) (more : List Reply) (attempts : ℕ)
        (s : Session A)
        → All (IsReadable decode value) ms
        → 200 ≤ status
        → status < 300
        → status ≢ 204
        → let s' = after_all decode value ms s in
          let run =
            resumable_sse decode mods max
              (response status none (chunks_of (render_all ms)) ∷ reply ∷ more)
              attempts
              s in
          (run
            ≡ requested decode mods max s
                (slept decode mods max s' (resumable_sse decode mods max (reply ∷ more) 0 s')))
          × ((tail : List (List Modifier)) × (run.requests
                ≡ build_sse_request_modifiers mods s.last_event_id
                  ∷ build_sse_request_modifiers mods (last_id s.last_event_id ms)
                  ∷ tail))
    resumable_sse-resumes ms status reply more attempts s h low high other =
        let s' = after_all decode value ms s in
        let e =
          resumable_sse-ended status none (chunks_of (render_all ms)) (reply ∷ more) attempts s s'
            (get-stream status none (chunks_of (render_all ms)) low high) (ground arith)
            (consume-render_all ms s h) in
        let (tail, r) = resumable_sse-request reply more 0 s' in
        (
          e,
          (tail, ap Run.requests e ∙ ap (◌∷◌ (build_sse_request_modifiers mods s.last_event_id)) r),
        )
