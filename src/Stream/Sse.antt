-- ===== src/Stream/Sse.antt =====
-- realtime/stream/stream.go: Server-Sent Events, one by one, over a response, and over reconnections.
pub mod FieldLine
pub mod RoundTrip
pub mod Ending
pub mod Whole
pub mod Resumable
pub mod Reconnects
use aoni.Base.{
  ℕ, zero, suc, ◌+◌, ◌*◌, ◌%◌, ◌^◌, ◌==◌, Bool, true, false, not, ◌&&◌, ◌||◌, List, [], ◌∷◌, ◌++◌,
  Option, none, some, ltb, if◌then◌else◌,
}
use mathlib.Core.List.{reverse}
use aoni.Base.Int.{ℤ, pos, negsuc, pos_part, is_positive, to_int64}
use aoni.Base.Strconv.{atoi}
use aoni.Base.Text.{Text, bytes, text_eq, is_empty, trim_space, to_lower}
use aoni.Stream.Lines.{Chunk}

pub record SseEvent : Type 0 where
  pub event : Text
  pub payload : Text
  pub id : Text
  pub retry : ℤ

abbrev pub no_event : SseEvent
no_event = record { event = []; payload = []; id = []; retry = pos 0 }

abbrev is_line_end : ℕ → Bool
is_line_end c = c == b'\r' || c == b'\n'

abbrev pub drop_line_ends : Text → Text
drop_line_ends [] = []
drop_line_ends (c ∷ s) = elim (is_line_end c) [ true ↦ drop_line_ends s | false ↦ c ∷ s ]

-- bytes.TrimRight of "\r\n".
abbrev pub trim_right : Text → Text
trim_right s = reverse (drop_line_ends (reverse s))

-- bytes.Cut at a colon; none if there is none.
abbrev pub cut_colon : Text → Option (Text × Text)
cut_colon [] = none
cut_colon (c ∷ s) =
    if c == b':'
    then some ([], s)
    else elim (cut_colon s) [ none ↦ none | some (key, value) ↦ some (c ∷ key, value) ]

abbrev pub drop_space : Text → Text
drop_space [] = []
drop_space (c ∷ s) = if c == b' ' then s else c ∷ s

abbrev pub with_retry : Option ℤ → SseEvent → SseEvent
with_retry none ev = ev
with_retry (some r) ev = record ev { retry = r }

unfoldable pub set_field : Text → Text → SseEvent → SseEvent
set_field key value ev =
    if text_eq key (bytes "event")
    then record ev { event = value }
    else if text_eq key (bytes "data")
    then (if is_empty ev.payload
        then record ev { payload = value }
        else record ev { payload = ev.payload ++ (b'\n' ∷ value) })
    else if text_eq key (bytes "id")
    then record ev { id = value }
    else if text_eq key (bytes "retry")
    then with_retry (atoi (trim_space value)) ev
    else ev

abbrev set_line : Text → Option (Text × Text) → SseEvent → SseEvent
set_line line none ev = set_field line [] ev
set_line line (some (key, value)) ev = set_field key (drop_space value) ev

abbrev is_comment : Text → Bool
is_comment [] = true
is_comment (c ∷ s) = c == b':'

unfoldable pub parse_sse_line : Text → SseEvent → SseEvent
parse_sse_line raw ev =
    let line = trim_right raw in if is_comment line then ev else set_line line (cut_colon line) ev

abbrev pub is_pending : SseEvent → Bool
is_pending ev = not (is_empty ev.payload) || not (is_empty ev.event)

-- The completion signal of a language model's stream.
abbrev pub is_done : SseEvent → Bool
is_done ev = text_eq (to_lower (trim_space ev.payload)) (bytes "[done]")

-- failed is an error of the connection, bad_payload one of the decoder.
pub data Error : Type 0 where
  eof bad_payload : Error
  failed : ℕ → Error

pub data Next : Type 0 where
  got : SseEvent → List Chunk → Next
  stopped : Error → List Chunk → Next

abbrev pub deliver : SseEvent → List Chunk → Next
deliver ev rest = if is_done ev then stopped eof rest else got ev rest

-- The end of the body: EOF, or the error of the connection.
abbrev pub at_end : Option ℕ → Text → SseEvent → Next
at_end (some e) line ev = stopped (failed e) []
at_end none line ev =
    if is_empty line
    then stopped eof []
    else let last = parse_sse_line line ev in
      if is_pending last then deliver last [] else stopped eof []

-- NextEvent, with what the inner loop has gathered of a line and what the outer one has of an event.
unfoldable pub next_event_from : Option ℕ → Text → SseEvent → List Chunk → Next
next_event_from end line ev [] = at_end end line ev
next_event_from end line ev (c ∷ rest) = elim c.is_prefix [
  | true ↦ next_event_from end (line ++ c.text) ev rest
  | false ↦ elim (is_empty (trim_right (line ++ c.text))) [
    | true ↦ elim (is_pending ev) [
      | true ↦ deliver ev rest
      | false ↦ next_event_from end [] ev rest
    ]
    | false ↦ next_event_from end [] (parse_sse_line (line ++ c.text) ev) rest
  ]
]

unfoldable pub next_event : Option ℕ → List Chunk → Next
next_event end chunks = next_event_from end [] no_event chunks

-- The state that consumeSSEResponse shares with the loop of ResumableSSE, and what it has sent to
-- the channel. retry_delay is a number of nanoseconds, of 64 bits.
pub record Session {ℓ} (A : Type ℓ) : Type ℓ where
  pub last_event_id : Text
  pub retry_delay : ℤ
  pub sent : List A

-- The result of a response: the session goes on, has failed, or the fuel ran out.
pub data Consumed {ℓ} (A : Type ℓ) : Type ℓ where
  ended : Session A → Consumed A
  broken : Error → Session A → Consumed A
  out_of_fuel : Consumed A

module _ {ℓ} {A : Type ℓ} (decode : SseEvent → Option A) where
  abbrev pub note_event : SseEvent → Session A → Session A
  note_event ev s = record s {
    last_event_id = if is_empty ev.id then s.last_event_id else ev.id;
    retry_delay =
        if is_positive ev.retry
        then to_int64 (pos_part ev.retry * 1000000 % 2 ^ 64)
        else s.retry_delay;
  }

  abbrev pub send_decoded : Option A → Session A → Option (Session A)
  send_decoded none s = none
  send_decoded (some a) s = some (record s { sent = s.sent ++ (a ∷ []) })

  -- none is an error of the decoder.
  unfoldable pub dispatch_sse_event : SseEvent → Session A → Option (Session A)
  dispatch_sse_event ev s =
      if not (is_pending ev)
      then some s
      else if is_done ev
      then some s
      else send_decoded (decode ev) s

  -- The context is not cancelled.
  unfoldable pub consume_sse_response : ℕ → Option ℕ → List Chunk → Session A → Consumed A
  consume_sse_response zero end chunks s = out_of_fuel
  consume_sse_response (suc fuel) end chunks s = elim (next_event end chunks) [
    | stopped eof rest ↦ ended s
    | stopped (failed e) rest ↦ broken (failed e) s
    | stopped bad_payload rest ↦ broken bad_payload s
    | got ev rest ↦ elim (dispatch_sse_event ev (note_event ev s)) [
      | none ↦ broken bad_payload (note_event ev s)
      | some s' ↦ consume_sse_response fuel end rest s'
    ]
  ]
