-- ===== src/Stream/Tests.antt =====
-- realtime/stream/stream.go: runs of the readers on small bodies, and the theorems at one input.
use aoni.Base.{◌≡◌, ◌≢◌, refl, List, [], ◌∷◌, ◌++◌, Option, none, some, arith, take, length}
use aoni.Base.Int.{pos}
use aoni.Base.Text.{Text, bytes}
use aoni.Stream.Lines.{line_chunk, chunks_of, chunks_from}
use aoni.Stream.Sse.{
  SseEvent, no_event, eof, got, stopped, deliver, next_event, next_event_from, parse_sse_line,
  set_field, Session, out_of_fuel, consume_sse_response,
}
use aoni.Stream.Sse.RoundTrip.{Message, IsMessage, render, event_of, next_event-render}
use aoni.Stream.Sse.Ending.{consume_sse_response-terminates}
use aoni.Stream.Sse.Whole.{IsReadable, render_all, after_all}
use aoni.Stream.Sse.Resumable.{
  no_response, response, get, Modifier, build_sse_request_modifiers, max_reconnects, Run, requested,
  slept, resumable_sse,
}
use aoni.Stream.Sse.Reconnects.{resumable_sse-gives_up, resumable_sse-resumes}
use aoni.Base.Text.{text_eq}
use aoni.Stream.Grpc.{
  Codec, process_grpc_web_frame, verify_grpc_trailer, trailer_lines, all_values,
  read_grpc_web_frames_bytes,
}
use aoni.Stream.Grpc.Whole
use aoni.Stream.Grpc.Whole.{
  GrpcFrame, write_grpc_frame, write_all, all_values-frames, all_values-truncated,
}
use aoni.Stream.Grpc.Decoder.{Agree, read_grpc_web_frames_bytes-Agrees}

abbrev greeting : Message
greeting = record {
  event = bytes "chat";
  id = bytes "7";
  head = bytes "hello";
  tail = bytes "world" ∷ [];
}

greeting-IsMessage : IsMessage greeting
greeting-IsMessage = record {
  event_line = ground arith;
  id_line = ground arith;
  head_line = ground arith;
  head_nonempty = refl;
  tail_lines = (ground arith, tt);
}

abbrev payload_of : SseEvent → Text
payload_of ev = ev.payload

abbrev keep : SseEvent → Option Text
keep ev = some ev.payload

greeting-IsReadable : IsReadable keep payload_of greeting
greeting-IsReadable = record { message = greeting-IsMessage; not_done = refl; decodes = refl }

abbrev start : Session Text
start = record { last_event_id = bytes "3"; retry_delay = pos 3000000000; sent = [] }

-- The first line of data is lost when it is empty.
empty_first_line :
    next_event none (chunks_of (bytes "data:" ++ (b'\n' ∷ bytes "data: b" ++ (b'\n' ∷ b'\n' ∷ []))))
    ≡ got (record no_event { payload = bytes "b" }) []
unfolding next_event next_event_from parse_sse_line set_field chunks_from
empty_first_line = refl

-- The event before the end of the body is lost without the blank line.
unfinished_event : next_event none (chunks_of (bytes "data: b" ++ (b'\n' ∷ []))) ≡ stopped eof []
unfolding next_event next_event_from parse_sse_line set_field chunks_from
unfinished_event = refl

next_event-render_example :
    next_event none (chunks_of (render greeting (bytes "data: x")))
    ≡ deliver (event_of greeting) (chunks_of (bytes "data: x"))
next_event-render_example = next_event-render none greeting (bytes "data: x") greeting-IsMessage

consume_sse_response-terminates_example :
    consume_sse_response keep 3 none (line_chunk (bytes "data: x") ∷ line_chunk [] ∷ []) start
    ≢ out_of_fuel
consume_sse_response-terminates_example =
    consume_sse_response-terminates keep 3 none (line_chunk (bytes "data: x") ∷ line_chunk [] ∷ [])
      start (omega arith)

abbrev outage : Run Text
outage = resumable_sse keep [] 1 (no_response 1 ∷ response 503 none [] ∷ []) 0 start

resumable_sse-gives_up_example :
    (length outage.requests ≡ 2)
    × ((length outage.sleeps ≡ 1) × ((outage.session ≡ start) × (outage.outcome ≡ max_reconnects)))
unfolding get
resumable_sse-gives_up_example =
    resumable_sse-gives_up keep [] 1 (no_response 1 ∷ []) [] (response 503 none []) start (refl, tt)
      refl refl (omega arith)

abbrev resumed : Run Text
resumed =
    resumable_sse keep [] 1
      (response 200 none (chunks_of (render_all (greeting ∷ []))) ∷ no_response 1 ∷ []) 1 start

abbrev greeted : Session Text
greeted = after_all keep payload_of (greeting ∷ []) start

resumable_sse-resumes_example :
    (resumed
      ≡ requested keep [] 1 start
          (slept keep [] 1 greeted (resumable_sse keep [] 1 (no_response 1 ∷ []) 0 greeted)))
    × ((tail : List (List Modifier)) × (resumed.requests
          ≡ build_sse_request_modifiers [] (bytes "3")
            ∷ build_sse_request_modifiers [] (bytes "7")
            ∷ tail))
resumable_sse-resumes_example =
    resumable_sse-resumes keep [] 1 payload_of (greeting ∷ []) 200 (no_response 1) [] 1 start
      (greeting-IsReadable, tt) (omega arith) (omega arith) (omega arith)

-- Messages as they are, without compression.
abbrev plain : Codec Text
plain = record {
  equal_fold_ascii = text_eq;
  grpc_status = bytes "grpc-status";
  grpc_message = bytes "grpc-message";
  grpc_status_details_bin = bytes "grpc-status-details-bin";
  raw_std_decode = λ s. none;
  std_decode = λ s. none;
  gunzip = λ s. none;
  unmarshal = λ s. some s;
}

abbrev hello : GrpcFrame
hello = record { flags = 0; payload = bytes "hello" }

abbrev trailer : GrpcFrame
trailer = record { flags = 128; payload = bytes "grpc-status: 0" }

abbrev text_of : GrpcFrame → Text
text_of f = f.payload

hello-IsMessage : Whole.IsMessage plain text_of hello
unfolding process_grpc_web_frame
hello-IsMessage = record { small = omega arith; decodes = refl }

all_values-frames_example :
    all_values plain 3 (write_all (hello ∷ hello ∷ []) (write_grpc_frame trailer []))
    ≡ some (bytes "hello" ∷ bytes "hello" ∷ [], none)
unfolding process_grpc_web_frame verify_grpc_trailer trailer_lines
all_values-frames_example =
    all_values-frames plain text_of (hello ∷ hello ∷ []) trailer []
      (hello-IsMessage, (hello-IsMessage, tt)) (omega arith) refl

all_values-truncated_example :
    all_values plain 2 (write_all (hello ∷ []) (take 5 (write_grpc_frame hello [])))
    ≡ some (bytes "hello" ∷ [], none)
all_values-truncated_example =
    all_values-truncated plain text_of (hello ∷ []) hello 5 (hello-IsMessage, tt) (omega arith)
      (omega arith) (omega arith)

abbrev two : Text
two = write_all (hello ∷ []) (write_grpc_frame (record { flags = 0; payload = bytes "bye" }) [])

read_grpc_web_frames_bytes-Agrees_example : Agree plain 3 two [] (bytes "bye")
unfolding read_grpc_web_frames_bytes process_grpc_web_frame
read_grpc_web_frames_bytes-Agrees_example =
    read_grpc_web_frames_bytes-Agrees plain 3 two [] (bytes "bye") (omega arith) refl
