-- ===== src/Stream/Sse/RoundTrip.antt =====
-- realtime/stream/stream.go: the messages of a stream, as a server writes them, and what NextEvent and
-- the loop over a response read back.
use mathlib.Core.List.{append_assoc}
use aoni.Base.{
  ℕ, ◌≡◌, refl, sym, ap, ◌∙◌, true, false, List, [], ◌∷◌, ◌++◌, Option, arith, if◌then◌else◌, All,
  All-append,
}
use aoni.Base.Int.{pos}
use aoni.Base.Text.{Text, bytes, is_empty}
use aoni.Stream.Lines.{Chunk, chunks_of}
use aoni.Stream.Sse.{
  SseEvent, no_event, trim_right, parse_sse_line, set_field, is_pending, deliver, next_event_from,
  next_event,
}
use aoni.Stream.Sse.FieldLine.{IsLine, trim_right-IsLine, next_event-line, next_line}

-- A message as the standard writes it: the data in lines, of which the first is head.
pub record Message : Type 0 where
  pub event : Text
  pub id : Text
  pub head : Text
  pub tail : List Text

pub record IsMessage (m : Message) : Type 0 where
  pub event_line : IsLine m.event
  pub id_line : IsLine m.id
  pub head_line : IsLine m.head
  pub head_nonempty : is_empty m.head ≡ false
  pub tail_lines : All IsLine m.tail

abbrev pub line_of : Text → Text → Text → Text
line_of name value rest = (name ++ value) ++ (b'\n' ∷ rest)

abbrev pub data_lines : List Text → Text → Text
data_lines [] rest = rest
data_lines (d ∷ ds) rest = line_of (bytes "data: ") d (data_lines ds rest)

-- A message, its blank line, and what follows.
abbrev pub render : Message → Text → Text
render m rest =
    line_of (bytes "event: ") m.event
      (line_of (bytes "id: ") m.id (data_lines (m.head ∷ m.tail) (b'\n' ∷ rest)))

abbrev pub join_lines : Text → List Text → Text
join_lines head [] = head
join_lines head (d ∷ ds) = head ++ (b'\n' ∷ join_lines d ds)

abbrev pub event_of : Message → SseEvent
event_of m = record {
  event = m.event;
  payload = join_lines m.head m.tail;
  id = m.id;
  retry = pos 0;
}

name_line :
    (name value : Text) → IsLine name → IsLine value → trim_right (name ++ value) ≡ name ++ value
name_line name value hn hv = trim_right-IsLine (name ++ value) (All-append _ name value hn hv)

next_line-name :
    (end : Option ℕ) (ev : SseEvent) (c : ℕ) (line : Text) (rest : List Chunk)
    → IsLine (c ∷ line)
    → next_line end ev (c ∷ line) rest ≡ next_event_from end [] (parse_sse_line (c ∷ line) ev) rest
next_line-name end ev c line rest h = rw (next_line, trim_right-IsLine (c ∷ line) h) refl

parse_sse_line-event :
    (value : Text) (ev : SseEvent)
    → IsLine value
    → parse_sse_line (bytes "event: " ++ value) ev ≡ record ev { event = value }
unfolding parse_sse_line set_field
parse_sse_line-event value ev h = rw (name_line (bytes "event: ") value (ground arith) h) refl

parse_sse_line-id :
    (value : Text) (ev : SseEvent)
    → IsLine value
    → parse_sse_line (bytes "id: " ++ value) ev ≡ record ev { id = value }
unfolding parse_sse_line set_field
parse_sse_line-id value ev h = rw (name_line (bytes "id: ") value (ground arith) h) refl

abbrev with_data : SseEvent → Text → SseEvent
with_data ev value =
    if is_empty ev.payload
    then record ev { payload = value }
    else record ev { payload = ev.payload ++ (b'\n' ∷ value) }

parse_sse_line-data :
    (value : Text) (ev : SseEvent)
    → IsLine value
    → parse_sse_line (bytes "data: " ++ value) ev ≡ with_data ev value
unfolding parse_sse_line set_field
parse_sse_line-data value ev h = rw (name_line (bytes "data: ") value (ground arith) h) refl

-- A line that is not empty is parsed, whatever its length.
next_event-name :
    (end : Option ℕ) (ev : SseEvent) (c : ℕ) (line rest : Text)
    → IsLine (c ∷ line)
    → next_event_from end [] ev (chunks_of ((c ∷ line) ++ (b'\n' ∷ rest)))
      ≡ next_event_from end [] (parse_sse_line (c ∷ line) ev) (chunks_of rest)
next_event-name end ev c line rest h =
    next_event-line end ev [] [] (c ∷ line) rest tt h
    ∙ next_line-name end ev c line (chunks_of rest) h

next_event-event :
    (end : Option ℕ) (ev : SseEvent) (value rest : Text)
    → IsLine value
    → next_event_from end [] ev (chunks_of (line_of (bytes "event: ") value rest))
      ≡ next_event_from end [] (record ev { event = value }) (chunks_of rest)
next_event-event end ev value rest h =
    next_event-name end ev b'e' (bytes "vent: " ++ value) rest
      (All-append _ (bytes "event: ") value (ground arith) h)
    ∙ rw (parse_sse_line-event value ev h) refl

next_event-id :
    (end : Option ℕ) (ev : SseEvent) (value rest : Text)
    → IsLine value
    → next_event_from end [] ev (chunks_of (line_of (bytes "id: ") value rest))
      ≡ next_event_from end [] (record ev { id = value }) (chunks_of rest)
next_event-id end ev value rest h =
    next_event-name end ev b'i' (bytes "d: " ++ value) rest
      (All-append _ (bytes "id: ") value (ground arith) h)
    ∙ rw (parse_sse_line-id value ev h) refl

next_event-data :
    (end : Option ℕ) (ev : SseEvent) (value rest : Text)
    → IsLine value
    → next_event_from end [] ev (chunks_of (line_of (bytes "data: ") value rest))
      ≡ next_event_from end [] (with_data ev value) (chunks_of rest)
next_event-data end ev value rest h =
    next_event-name end ev b'd' (bytes "ata: " ++ value) rest
      (All-append _ (bytes "data: ") value (ground arith) h)
    ∙ rw (parse_sse_line-data value ev h) refl

next_event-blank :
    (end : Option ℕ) (ev : SseEvent) (rest : Text)
    → is_pending ev ≡ true
    → next_event_from end [] ev (chunks_of (b'\n' ∷ rest)) ≡ deliver ev (chunks_of rest)
next_event-blank end ev rest h = next_event-line end ev [] [] [] rest tt tt ∙ rw (next_line, h) refl

-- What the lines of data after the first do to an event.
abbrev with_lines : SseEvent → List Text → SseEvent
with_lines ev [] = ev
with_lines ev (d ∷ ds) = with_lines (record ev { payload = ev.payload ++ (b'\n' ∷ d) }) ds

is_empty-append : (s t : Text) → is_empty s ≡ false → is_empty (s ++ t) ≡ false
is_empty-append [] t h = cc
is_empty-append (c ∷ s) t h = refl

next_event-data_lines :
    (end : Option ℕ) (ev : SseEvent) (ds : List Text) (rest : Text)
    → is_empty ev.payload ≡ false
    → All IsLine ds
    → next_event_from end [] ev (chunks_of (data_lines ds rest))
      ≡ next_event_from end [] (with_lines ev ds) (chunks_of rest)
next_event-data_lines end ev [] rest h hs = refl
next_event-data_lines end ev (d ∷ ds) rest h (hd, hs) =
    next_event-data end ev d (data_lines ds rest) hd
    ∙ rw h (
        next_event-data_lines end (record ev { payload = ev.payload ++ (b'\n' ∷ d) }) ds rest
          (is_empty-append ev.payload (b'\n' ∷ d) h) hs)

abbrev with_payload : SseEvent → Text → SseEvent
with_payload ev t = record ev { payload = t }

with_lines-join :
    (ev : SseEvent) (p d : Text) (ds : List Text)
    → with_lines (with_payload ev (p ++ d)) ds ≡ with_payload ev (p ++ join_lines d ds)
with_lines-join ev p d [] = refl
with_lines-join ev p d (x ∷ ds) =
    ap (λ t. with_lines (with_payload ev t) ds) (sym (append_assoc (p ++ d) (b'\n' ∷ []) x))
    ∙ with_lines-join ev ((p ++ d) ++ (b'\n' ∷ [])) x ds
    ∙ ap (with_payload ev) (
        append_assoc (p ++ d) (b'\n' ∷ []) (join_lines x ds)
        ∙ append_assoc p d (b'\n' ∷ join_lines x ds))

is_pending-join :
    (m : Message) → is_empty m.head ≡ false → is_empty (join_lines m.head m.tail) ≡ false
is_pending-join m h = is_empty-join m.head m.tail h
  where
    is_empty-join :
        (d : Text) (ds : List Text) → is_empty d ≡ false → is_empty (join_lines d ds) ≡ false
    is_empty-join d [] h = h
    is_empty-join d (x ∷ ds) h = is_empty-append d (b'\n' ∷ join_lines x ds) h

pub is_pending-event_of : (m : Message) → IsMessage m → is_pending (event_of m) ≡ true
is_pending-event_of m h = rw (is_pending-join m h.head_nonempty) refl

-- A message that stands at the head of a body, with an event name, an id and at least one line of
-- data, the first of them not empty, and no line breaks but its own, is read back whole: NextEvent
-- gives the event it was written from, the lines of data joined by newlines, and stops right behind
-- the message, whatever the lengths of the lines and however the reader cuts them up. (A message
-- that is the completion signal ends the stream.)
pub next_event-render :
    (end : Option ℕ) (m : Message) (rest : Text)
    → IsMessage m
    → next_event end (chunks_of (render m rest)) ≡ deliver (event_of m) (chunks_of rest)
unfolding next_event
next_event-render end m rest h =
    let event = m.event in
    let id = m.id in
    let head = m.head in
    let tail = m.tail in
    next_event-event end no_event event _ h.event_line
    ∙ next_event-id end (record no_event { event = event }) id _ h.id_line
    ∙ next_event-data end (record no_event { event = event; id = id }) head _ h.head_line
    ∙ next_event-data_lines end (record no_event { event = event; id = id; payload = head }) tail _
        h.head_nonempty h.tail_lines
    ∙ ap (λ ev. next_event_from end [] ev (chunks_of (b'\n' ∷ rest)))
        (with_lines-join (record no_event { event = event; id = id }) [] head tail)
    ∙ next_event-blank end (event_of m) rest (is_pending-event_of m h)
