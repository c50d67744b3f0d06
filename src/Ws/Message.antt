-- ===== src/Ws/Message.antt =====
-- realtime/ws/wsconn.go: readFrame and readFrameScoped, which put messages together from frames and
-- answer control frames. The arena of a scope, the reuse of buffers and the deadlines are not modelled;
-- after an error of the socket the position in the stream is left where the frame began.
pub mod Fragments
pub mod Control
use aoni.Base.{
  ℕ, zero, suc, ◌+◌, Bool, true, false, not, ◌&&◌, List, [], ◌∷◌, ◌++◌, Option, none, some, leb,
  ◌==◌, if◌then◌else◌, length, take,
}
use aoni.Base.Text.{Text}
use aoni.Ws.Frame.{
  Error, eof, unexpected_continuation_frame, incomplete_fragmentation, deflate_failed, Result, ok,
  err, Wire, Frame, opcode_continuation, opcode_close, opcode_ping, opcode_pong, read_raw_frame,
  write_frame, decompress_no_context_takeover,
}

-- The fields of wsRawConn that the frames change; `draws` counts the masking keys drawn so far.
pub record Conn : Type 0 where
  pub is_client : Bool
  pub compress : Bool
  pub input : Text
  pub output : Text
  pub frag_opcode : ℕ
  pub frag_buf : Text
  pub frag_compress : Bool
  pub draws : ℕ
  pub closed : Bool

-- What one frame leads to: another round of the loop, or a return.
pub data Outcome : Type 0 where
  again : Conn → Outcome
  done : Result (ℕ × Text) → Conn → Outcome

abbrev pub max_consecutive_empty_reads : ℕ
max_consecutive_empty_reads = 100

abbrev pub normal_closure : Text
normal_closure = 0x03 ∷ 0xe8 ∷ []

-- `mask_at` gives the four bytes of the key that randkit.Uint32 draws at each call.
module _ (wire : Wire) (mask_at : ℕ → Text) where
  -- _ = c.writeFrame(opcode, payload)
  unfoldable pub send : ℕ → Text → Conn → Conn
  send opcode payload c =
      elim (write_frame wire c.is_client c.compress (mask_at c.draws) opcode payload) [
        | err e ↦ c
        | ok sent ↦ record c {
          output = c.output ++ sent;
          draws = if c.is_client then c.draws + 1 else c.draws;
        }
      ]

  abbrev pub inflated : Bool → ℕ → Text → Result (ℕ × Text)
  inflated compressed opcode payload =
      if compressed
      then (elim (decompress_no_context_takeover wire payload) [
        | none ↦ err deflate_failed
        | some p ↦ ok (opcode, p)
      ])
      else ok (opcode, payload)

  unfoldable pub handle_control : Frame → Conn → Outcome
  unfolding send
  handle_control f c =
      if f.opcode == opcode_close
      then (let code = if leb 2 (length f.payload) then take 2 f.payload else normal_closure in
          done (err eof) (record (send opcode_close code c) { closed = true }))
      else if f.opcode == opcode_ping
      then again (send opcode_pong f.payload c)
      else again c

  unfoldable pub handle_continuation : Frame → Conn → Outcome
  handle_continuation f c =
      if c.frag_opcode == 0
      then done (err unexpected_continuation_frame) c
      else if f.fin
      then done (inflated c.frag_compress c.frag_opcode (c.frag_buf ++ f.payload))
          (record c { frag_buf = c.frag_buf ++ f.payload; frag_opcode = 0; frag_compress = false })
      else again (record c { frag_buf = c.frag_buf ++ f.payload })

  unfoldable pub handle_data : Frame → Conn → Outcome
  handle_data f c =
      if not (c.frag_opcode == 0)
      then done (err incomplete_fragmentation) c
      else if f.fin
      then done (inflated (f.rsv1 && c.compress) f.opcode f.payload) c
      else again (record c {
        frag_opcode = f.opcode;
        frag_compress = f.rsv1 && c.compress;
        frag_buf = f.payload;
      })

  unfoldable pub handle_frame : Frame → Conn → Outcome
  unfolding handle_control handle_continuation handle_data
  handle_frame f c =
      if leb opcode_close f.opcode
      then handle_control f c
      else if f.opcode == opcode_continuation
      then handle_continuation f c
      else handle_data f c

  -- The loop, with the rounds that are left.
  unfoldable pub read_frame : ℕ → Conn → Result (ℕ × Text) × Conn
  read_frame zero c = (err eof, c)
  read_frame (suc n) c = elim (read_raw_frame wire c.compress c.input) [
    | err e ↦ (err e, c)
    | ok (f, rest) ↦ elim (handle_frame f (record c { input = rest })) [
      | again c' ↦ read_frame n c'
      | done r c' ↦ (r, c')
    ]
  ]

  unfoldable pub read_message : Conn → Result (ℕ × Text) × Conn
  unfolding read_frame
  read_message c = read_frame max_consecutive_empty_reads c
