-- ===== src/Stream/Lines.antt =====
-- bufio.Reader.ReadLine, as realtime/stream/stream.go reads the body of a response: a line of the
-- body in one chunk, or, if it is longer than the buffer, in several, of which all but the last are
-- marked as prefixes. A reader is the list of the chunks that ReadLine still returns.
use aoni.Base.{ℕ, ◌+◌, Bool, true, false, List, [], ◌∷◌, ◌++◌, ◌==◌, if◌then◌else◌, length}
use aoni.Base.Text.{Text, is_empty, trim_suffix_byte}

pub record Chunk : Type 0 where
  pub text : Text
  pub is_prefix : Bool

abbrev pub buffer_size : ℕ
buffer_size = 4096

abbrev pub line_chunk : Text → Chunk
line_chunk s = record { text = s; is_prefix = false }

abbrev pub prefix_chunk : Text → Chunk
prefix_chunk s = record { text = s; is_prefix = true }

-- The last line, if it does not end in a newline, keeps its carriage return.
abbrev pub last_chunk : Text → List Chunk
last_chunk held = if is_empty held then [] else line_chunk held ∷ []

-- The chunks of a body, where held is what is in the buffer. A full buffer that ends in a carriage
-- return gives it back, so that it is seen beside the newline that may follow.
unfoldable pub chunks_from : Text → Text → List Chunk
chunks_from held [] = last_chunk held
chunks_from held (c ∷ s) = elim (c == b'\n') [
  | true ↦ line_chunk (trim_suffix_byte b'\r' held) ∷ chunks_from [] s
  | false ↦ elim (length held + 1 == buffer_size) [
    | true ↦ elim (c == b'\r') [
      | true ↦ prefix_chunk held ∷ chunks_from (b'\r' ∷ []) s
      | false ↦ prefix_chunk (held ++ (c ∷ [])) ∷ chunks_from [] s
    ]
    | false ↦ chunks_from (held ++ (c ∷ [])) s
  ]
]

abbrev pub chunks_of : Text → List Chunk
chunks_of body = chunks_from [] body
