-- ===== src/Stream/Sse/FieldLine.antt =====
-- realtime/stream/stream.go: what NextEvent makes of one line, however ReadLine cuts it up.
use mathlib.Core.List.{append-nil, append_assoc, reverse, reverse-append, reverse-reverse}
use aoni.Base.{
  ℕ, ◌+◌, ◌≡◌, refl, ap, ◌∙◌, inl, inr, true, false, List, [], ◌∷◌, ◌++◌, Option, ◌==◌, length,
  Bool-cases, All, All-append,
}
use aoni.Base.Text.{Text, is_empty, trim_suffix_byte, drop_head}
use aoni.Stream.Lines.{Chunk, line_chunk, prefix_chunk, buffer_size, chunks_from, chunks_of}
use aoni.Stream.Sse.{
  SseEvent, drop_line_ends, trim_right, parse_sse_line, is_pending, deliver, Next, next_event_from,
}

abbrev pub IsPlain : ℕ → Type 0
IsPlain c = ((c == b'\n') ≡ false) × ((c == b'\r') ≡ false)

-- A text with no line break in it.
abbrev pub IsLine : Text → Type 0
IsLine s = All IsPlain s

reverse-IsLine : (s : Text) → IsLine s → IsLine (reverse s)
reverse-IsLine [] h = tt
reverse-IsLine (c ∷ s) (hc, h) =
    rw (reverse-append (c ∷ []) s)
      (All-append IsPlain (reverse s) (c ∷ []) (reverse-IsLine s h) (hc, tt))

drop_line_ends-IsLine : (s : Text) → IsLine s → drop_line_ends s ≡ s
drop_line_ends-IsLine [] h = refl
drop_line_ends-IsLine (c ∷ s) ((n, r), h) = rw (n, r, drop_line_ends) refl

pub trim_right-IsLine : (s : Text) → IsLine s → trim_right s ≡ s
trim_right-IsLine s h =
    ap reverse (drop_line_ends-IsLine (reverse s) (reverse-IsLine s h)) ∙ reverse-reverse s

drop_head-IsLine : (s : Text) → IsLine s → drop_head b'\r' s ≡ s
drop_head-IsLine [] h = refl
drop_head-IsLine (c ∷ s) ((n, r), h) = rw r refl

trim_return-IsLine : (s : Text) → IsLine s → trim_suffix_byte b'\r' s ≡ s
trim_return-IsLine s h =
    ap reverse (drop_head-IsLine (reverse s) (reverse-IsLine s h)) ∙ reverse-reverse s

-- What the outer loop does with a whole line.
abbrev pub next_line : Option ℕ → SseEvent → Text → List Chunk → Next
next_line end ev line rest = elim (is_empty (trim_right line)) [
  | true ↦ elim (is_pending ev) [ true ↦ deliver ev rest | false ↦ next_event_from end [] ev rest ]
  | false ↦ next_event_from end [] (parse_sse_line line ev) rest
]

chunks_from-newline :
    (held rest : Text)
    → IsLine held
    → chunks_from held (b'\n' ∷ rest) ≡ line_chunk held ∷ chunks_of rest
unfolding chunks_from
chunks_from-newline held rest h = rw (trim_return-IsLine held h) refl

chunks_from-full :
    (held : Text) (c : ℕ) (rest : Text)
    → IsPlain c
    → (length held + 1 == buffer_size) ≡ true
    → chunks_from held (c ∷ rest) ≡ prefix_chunk (held ++ (c ∷ [])) ∷ chunks_from [] rest
unfolding chunks_from
chunks_from-full held c rest (n, r) full = rw (n, full, r, chunks_from) refl

chunks_from-room :
    (held : Text) (c : ℕ) (rest : Text)
    → IsPlain c
    → (length held + 1 == buffer_size) ≡ false
    → chunks_from held (c ∷ rest) ≡ chunks_from (held ++ (c ∷ [])) rest
unfolding chunks_from
chunks_from-room held c rest (n, r) room = rw (n, room, chunks_from) refl

next_line-ap :
    (end : Option ℕ) (ev : SseEvent) (rest : List Chunk) {s t : Text}
    → s ≡ t
    → next_line end ev s rest ≡ next_line end ev t rest
next_line-ap end ev rest e = ap (λ x. next_line end ev x rest) e

snoc_outer :
    (before held : Text) (c : ℕ) (line : Text)
    → (before ++ (held ++ (c ∷ []))) ++ line ≡ before ++ (held ++ (c ∷ line))
snoc_outer before held c line =
    append_assoc before (held ++ (c ∷ [])) line ∙ ap (◌++◌ before) (append_assoc held (c ∷ []) line)

pub next_event-line :
    (end : Option ℕ) (ev : SseEvent) (before held line rest : Text)
    → IsLine held
    → IsLine line
    → next_event_from end before ev (chunks_from held (line ++ (b'\n' ∷ rest)))
      ≡ next_line end ev (before ++ (held ++ line)) (chunks_of rest)
unfolding next_event_from
next_event-line end ev before held [] rest hh hl =
    rw (chunks_from-newline held rest hh, append-nil held) refl
next_event-line end ev before held (c ∷ line) rest hh (p, hl) =
    elim (Bool-cases (length held + 1 == buffer_size)) [
      | inl full ↦ rw (chunks_from-full held c (line ++ (b'\n' ∷ rest)) p full) (
          next_event-line end ev (before ++ (held ++ (c ∷ []))) [] line rest tt hl
          ∙ next_line-ap end ev (chunks_of rest) (snoc_outer before held c line))
      | inr room ↦ rw (chunks_from-room held c (line ++ (b'\n' ∷ rest)) p room) (
          next_event-line end ev before (held ++ (c ∷ [])) line rest
            (All-append IsPlain held (c ∷ []) hh (p, tt)) hl
          ∙ next_line-ap end ev (chunks_of rest)
              (ap (◌++◌ before) (append_assoc held (c ∷ []) line)))
    ]
