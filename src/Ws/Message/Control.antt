-- ===== src/Ws/Message/Control.antt =====
-- The answers to control frames, read back by the peer.
use mathlib.Core.Path.{ap₂}
use aoni.Base.{
  ℕ, ◌-◌, ◌≤◌, ◌<◌, ◌≡◌, ◌≢◌, refl, ap, ◌∙◌, inl, inr, Bool, true, false, [], ◌∷◌, ◌++◌, arith, leb,
  if◌then◌else◌, length, length-append, take, take-append, Option-cases, some,
}
use aoni.Base.Text.{Text}
use aoni.Ws.Frame.{
  ok, err, eof, Wire, Frame, opcode_ping, opcode_pong, opcode_close, read_raw_frame, write_frame,
  deflated, max_frame_size, opcode_continuation, sync_marker, compress_no_context_takeover,
  decompress_no_context_takeover,
}
use aoni.Ws.Frame.RoundTrip.{read_raw_frame-write_frame}
use aoni.Ws.Message.{
  Conn, again, done, handle_frame, send, normal_closure, read_frame, read_message,
}

module _ (wire : Wire) (mask_at : ℕ → Text) where
  send_control :
      (opcode : ℕ) (p rest : Text) (c : Conn)
      → opcode_close ≤ opcode
      → opcode < 16
      → length (mask_at c.draws) ≡ 4
      → length p ≤ 125
      → (sent : Text) × ((send wire mask_at opcode p c).output ≡ c.output ++ sent)
        × (read_raw_frame wire c.compress (sent ++ rest)
            ≡ ok (record { opcode = opcode; fin = true; rsv1 = false; payload = p }, rest))
  unfolding send
  send_control opcode p rest c lo hi k short =
      let (sent, e, r) =
        read_raw_frame-write_frame wire c.is_client c.compress false (mask_at c.draws) p p rest
          opcode hi k (omega arith) (inr short) (ground arith) in
      (sent, ground arith, r)

  -- A ping is answered by a pong which the peer reads with the ping's payload, and the reader goes on;
  -- the masking key has four bytes.
  handle_frame-ping :
      (f : Frame) (c : Conn) (rest : Text)
      → f.opcode ≡ opcode_ping
      → length f.payload ≤ 125
      → length (mask_at c.draws) ≡ 4
      → (c' : Conn) × (sent : Text) × (handle_frame wire mask_at f c ≡ again c')
        × (c'.output ≡ c.output ++ sent)
        × (read_raw_frame wire c.compress (sent ++ rest)
            ≡ ok (
              record { opcode = opcode_pong; fin = true; rsv1 = false; payload = f.payload },
              rest,
            ))
  unfolding handle_frame
  handle_frame-ping f c rest e short k =
      let (sent, out, r) =
        send_control opcode_pong f.payload rest c (omega arith) (omega arith) k short in
      (send wire mask_at opcode_pong f.payload c, sent, ground arith, out, r)

  -- The status code that a close frame is answered with.
  abbrev pub close_code : Text → Text
  close_code p = if leb 2 (length p) then take 2 p else normal_closure

  length-close_code : (p : Text) → length (close_code p) ≤ 125
  length-close_code [] = omega arith
  length-close_code (a ∷ []) = omega arith
  length-close_code (a ∷ b ∷ p) = ground arith

  -- A close frame is answered by a close frame which the peer reads with the same status code, or
  -- with 1000 if there was none; the connection is closed and the caller gets EOF.
  handle_frame-close :
      (f : Frame) (c : Conn) (rest : Text)
      → f.opcode ≡ opcode_close
      → length (mask_at c.draws) ≡ 4
      → (c' : Conn) × (sent : Text) × (handle_frame wire mask_at f c ≡ done (err eof) c')
        × (c'.closed ≡ true)
        × (c'.output ≡ c.output ++ sent)
        × (read_raw_frame wire c.compress (sent ++ rest)
            ≡ ok (
              record {
                opcode = opcode_close;
                fin = true;
                rsv1 = false;
                payload = close_code f.payload;
              },
              rest,
            ))
  unfolding handle_frame
  handle_frame-close f c rest e k =
      let (sent, out, r) =
        send_control opcode_close (close_code f.payload) rest c (omega arith) (omega arith) k
          (length-close_code f.payload) in
      (
        record (send wire mask_at opcode_close (close_code f.payload) c) { closed = true },
        sent,
        ground arith,
        refl,
        out,
        r,
      )

  compressed_back :
      (p d : Text)
      → compress_no_context_takeover wire p ≡ some d
      → decompress_no_context_takeover wire d ≡ some p
  unfolding compress_no_context_takeover decompress_no_context_takeover
  compressed_back p d e = elim (Option-cases (wire.flush p)) [
    | inl k ↦ ground arith
    | inr (raw, k) ↦
        let (s, same, back) = wire.read_all-flush p raw k in
        let len : length raw - 4 ≡ length s =
          omega (arith, ap length same, length-append s sync_marker) in
        let cut : take (length raw - 4) raw ≡ s = ap₂ take len same ∙ take-append s sync_marker in
        ground (arith, ap length same, length-append s sync_marker)
  ]

  -- A data message that one side sends is read by the other as it was given, with its opcode, with
  -- and without masking and compression, and what follows is left; the reader is between messages,
  -- the key has four bytes and what is sent fits the reader's limit.
  pub read_message-write_frame :
      (is_client z : Bool) (key payload p rest : Text) (opcode : ℕ) (c : Conn)
      → opcode < opcode_close
      → opcode ≢ opcode_continuation
      → length key ≡ 4
      → length p ≤ max_frame_size
      → c.frag_opcode ≡ 0
      → deflated wire c.compress opcode payload ≡ ok (p, z)
      → (sent : Text) × (write_frame wire is_client c.compress key opcode payload ≡ ok sent)
        × (read_message wire mask_at (record c { input = sent ++ rest })
            ≡ (ok (opcode, payload), record c { input = rest }))
  unfolding read_message read_frame handle_frame
  read_message-write_frame is_client z key payload p rest opcode c o o' k h clean d =
      let (sent, e, r) =
        read_raw_frame-write_frame wire is_client c.compress z key payload p rest opcode
          (omega arith) k h (inl o) d in
      (sent, e, ground (arith, compressed_back payload p))
