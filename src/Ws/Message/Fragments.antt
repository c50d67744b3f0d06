-- ===== src/Ws/Message/Fragments.antt =====
-- Messages that arrive in several frames.
use aoni.Base.{
  ℕ, zero, suc, ◌+◌, ◌-◌, ◌≤◌, ◌<◌, ◌≡◌, refl, ◌≢◌, ◌∙◌, ap, sym, ◌⊎◌, inl, inr, Bool, true, false,
  ◌&&◌, List, [], ◌∷◌, ◌++◌, arith, ◌==◌, if◌then◌else◌, length, All,
}
use mathlib.Core.Path.{subst₂}
use mathlib.Core.List.{append_assoc, append-nil}
use aoni.Base.Text.{Text}
use aoni.Ws.Frame.{
  Result, ok, err, eof, Result-cases, Wire, Frame, opcode_continuation, opcode_ping, opcode_pong,
  opcode_close, read_raw_frame,
}
use aoni.Ws.Message.{
  Conn, Outcome, again, done, inflated, handle_frame, read_frame, read_message, send,
  max_consecutive_empty_reads,
}

add-suc_left : (a b : ℕ) → suc a + b ≡ suc (a + b)
add-suc_left a b = omega arith

Outcome-cases :
    (o : Outcome)
    → ((c : Conn) × (o ≡ again c)) ⊎ ((r : Result (ℕ × Text)) × (c : Conn) × (o ≡ done r c))
Outcome-cases (again c) = inl (c, refl)
Outcome-cases (done r c) = inr (r, c, refl)

-- A ping, a pong, or a continuation that is not the last.
abbrev pub IsBetween : Frame → Type 0
IsBetween f =
    (f.opcode ≡ opcode_ping)
    ⊎ (f.opcode ≡ opcode_pong)
    ⊎ ((f.opcode ≡ opcode_continuation) × (f.fin ≡ false))

-- The bytes that the continuations among the frames carry.
abbrev pub carried : List Frame → Text
carried [] = []
carried (f ∷ fs) = if f.opcode == opcode_continuation then f.payload ++ carried fs else carried fs

module _ (wire : Wire) where
  -- The socket holds these frames, and `t` after them.
  abbrev pub Arrives : Bool → Text → List Frame → Text → Type 0
  Arrives compress s [] t = s ≡ t
  Arrives compress s (f ∷ fs) t =
      (u : Text) × (read_raw_frame wire compress s ≡ ok (f, u)) × Arrives compress u fs t

  module _ (mask_at : ℕ → Text) where
    -- The connection `c'` differs from `c` by what was sent, by the bytes `s` kept for the message,
    -- and by what is left to read.
    record Kept (s t : Text) (c c' : Conn) : Type 0 where
      opcode : c'.frag_opcode ≡ c.frag_opcode
      deflated : c'.frag_compress ≡ c.frag_compress
      buffer : c'.frag_buf ≡ c.frag_buf ++ s
      compress : c'.compress ≡ c.compress
      input : c'.input ≡ t

    send_keeps :
        (opcode : ℕ) (p : Text) (c : Conn)
        → ((send wire mask_at opcode p c).frag_opcode ≡ c.frag_opcode)
          × ((send wire mask_at opcode p c).frag_compress ≡ c.frag_compress)
          × ((send wire mask_at opcode p c).frag_buf ≡ c.frag_buf)
          × ((send wire mask_at opcode p c).compress ≡ c.compress)
          × ((send wire mask_at opcode p c).input ≡ c.input)
    unfolding send
    send_keeps opcode p c = ground arith

    between_step :
        (f : Frame) (c : Conn)
        → IsBetween f
        → c.frag_opcode ≢ 0
        → (c' : Conn) × (handle_frame wire mask_at f c ≡ again c')
          × Kept (if f.opcode == opcode_continuation then f.payload else []) c.input c c'
    unfolding handle_frame
    between_step f c (inl e) k =
        let (a, b, d, g, h) = send_keeps opcode_pong f.payload c in
        (
          send wire mask_at opcode_pong f.payload c,
          ground arith,
          record {
            opcode = a;
            deflated = b;
            buffer = ground (arith, append-nil c.frag_buf);
            compress = g;
            input = h;
          },
        )
    between_step f c (inr (inl e)) k = (
      c,
      ground arith,
      record {
        opcode = refl;
        deflated = refl;
        buffer = ground (arith, append-nil c.frag_buf);
        compress = refl;
        input = refl;
      },
    )
    between_step f c (inr (inr (e, g))) k = (
      record c { frag_buf = c.frag_buf ++ f.payload },
      ground arith,
      record {
        opcode = refl;
        deflated = refl;
        buffer = ground arith;
        compress = refl;
        input = refl;
      },
    )

    -- The frames in between use one round each, and leave their bytes in the buffer.
    collect :
        (fs : List Frame) (n : ℕ) (c : Conn) (t : Text)
        → All IsBetween fs
        → Arrives c.compress c.input fs t
        → c.frag_opcode ≢ 0
        → (c' : Conn) × (read_frame wire mask_at (length fs + n) c ≡ read_frame wire mask_at n c')
          × Kept (carried fs) t c c'
    unfolding read_frame
    collect [] n c t h arrives k = (
      c,
      ap (λ m. read_frame wire mask_at m c) (omega arith),
      record {
        opcode = refl;
        deflated = refl;
        buffer = ground (arith, append-nil c.frag_buf);
        compress = refl;
        input = arrives;
      },
    )
    collect (f ∷ fs) n c t (h, hs) (u, e, arrives) k =
        let (c1, e1, k1) = between_step f (record c { input = u }) h k in
        let (c2, e2, k2) =
          collect fs n c1 t hs
            (subst₂ (λ b s. Arrives b s fs t) (sym k1.compress) (sym k1.input) arrives)
            (ground arith) in
        (
          c2,
          ground (arith, add-suc_left (length fs) n),
          record {
            opcode = k2.opcode ∙ k1.opcode;
            deflated = k2.deflated ∙ k1.deflated;
            buffer =
                ground
                  (arith, append_assoc c.frag_buf f.payload (carried fs), append-nil c.frag_buf);
            compress = k2.compress ∙ k1.compress;
            input = k2.input;
          },
        )

    -- The first frame of a fragmented message.
    abbrev pub IsFirst : Frame → Type 0
    IsFirst f = (f.opcode < opcode_close) × (f.opcode ≢ opcode_continuation) × (f.fin ≡ false)

    started : Frame → Conn → Text → Conn
    started f c u = record c {
      input = u;
      frag_opcode = f.opcode;
      frag_compress = f.rsv1 && c.compress;
      frag_buf = f.payload;
    }

    first_step :
        (f : Frame) (c : Conn) (u : Text) (n : ℕ)
        → IsFirst f
        → c.frag_opcode ≡ 0
        → read_raw_frame wire c.compress c.input ≡ ok (f, u)
        → read_frame wire mask_at (suc n) c ≡ read_frame wire mask_at n (started f c u)
    unfolding read_frame handle_frame started
    first_step f c u n h k e = ground arith

    last_step :
        (f : Frame) (c : Conn) (u : Text) (n : ℕ)
        → f.opcode ≡ opcode_continuation
        → f.fin ≡ true
        → c.frag_opcode ≢ 0
        → read_raw_frame wire c.compress c.input ≡ ok (f, u)
        → (c' : Conn) × (read_frame wire mask_at (suc n) c
            ≡ (inflated wire mask_at c.frag_compress c.frag_opcode (c.frag_buf ++ f.payload), c'))
          × (c'.frag_opcode ≡ 0)
          × (c'.input ≡ u)
    unfolding read_frame handle_frame
    last_step f c u n z fin k e = (
      record c {
        input = u;
        frag_buf = c.frag_buf ++ f.payload;
        frag_opcode = 0;
        frag_compress = false;
      },
      ground arith,
      refl,
      refl,
    )

    read_frame_zero : (c : Conn) → read_frame wire mask_at 0 c ≡ (err eof, c)
    unfolding read_frame
    read_frame_zero c = refl

    -- A message in a first frame, any frames in between (pings and pongs among them) and a last
    -- continuation is read in one call as the joined payloads under the first frame's opcode, inflated
    -- if the first frame says so and compression was negotiated; no fragment stays pending and the
    -- bytes behind the message are left, if the connection was between messages and the frames are at
    -- most a hundred.
    pub read_message-fragments :
        (first last : Frame) (fs : List Frame) (c : Conn) (s u t : Text)
        → IsFirst first
        → All IsBetween fs
        → last.opcode ≡ opcode_continuation
        → last.fin ≡ true
        → c.frag_opcode ≡ 0
        → length fs + 2 ≤ max_consecutive_empty_reads
        → read_raw_frame wire c.compress c.input ≡ ok (first, s)
        → Arrives c.compress s fs u
        → read_raw_frame wire c.compress u ≡ ok (last, t)
        → (c' : Conn) × (read_message wire mask_at c ≡ (
          inflated wire mask_at
              (first.rsv1 && c.compress)
              first.opcode
              (first.payload ++ (carried fs ++ last.payload)),
          c',
        ))
          × (c'.frag_opcode ≡ 0)
          × (c'.input ≡ t)
    unfolding read_message started
    read_message-fragments first last fs c s u t hf hs ho hfin z room e1 arrives e2 =
        let n = 98 - length fs in
        let begun = started first c s in
        let rounds : max_consecutive_empty_reads ≡ suc (length fs + suc n) = omega arith in
        let (c1, p1, k1) = collect fs (suc n) begun u hs arrives hf.1 in
        let (c2, p2, k2, k3) = last_step last c1 t n ho hfin (ground arith) (ground arith) in
        (
          c2,
          ap (λ m. read_frame wire mask_at m c) rounds
              ∙ first_step first c s (length fs + suc n) hf z e1
              ∙ p1
              ∙ ground (arith, append_assoc first.payload (carried fs) last.payload),
          k2,
          k3,
        )

    -- A message whose last frame is not among the first hundred is not read: the call ends with EOF
    -- and the message still pending, although the peer did nothing wrong.
    pub read_message-long :
        (first : Frame) (fs : List Frame) (c : Conn) (s u : Text)
        → IsFirst first
        → All IsBetween fs
        → c.frag_opcode ≡ 0
        → length fs + 1 ≡ max_consecutive_empty_reads
        → read_raw_frame wire c.compress c.input ≡ ok (first, s)
        → Arrives c.compress s fs u
        → ((read_message wire mask_at c).0 ≡ err eof)
          × ((read_message wire mask_at c).1.frag_opcode ≡ first.opcode)
    unfolding read_message started
    read_message-long first fs c s u hf hs z full e1 arrives =
        let (c1, p1, k1) = collect fs 0 (started first c s) u hs arrives hf.1 in
        let rounds : max_consecutive_empty_reads ≡ suc (length fs + 0) = omega arith in
        let whole : read_message wire mask_at c ≡ (err eof, c1) =
          ap (λ m. read_frame wire mask_at m c) rounds
          ∙ first_step first c s (length fs + 0) hf z e1
          ∙ p1
          ∙ read_frame_zero c1 in
        (ground arith, ground arith)

    handle_frame-again :
        (f : Frame) (c c' : Conn)
        → c.frag_opcode < opcode_close
        → handle_frame wire mask_at f c ≡ again c'
        → c'.frag_opcode < opcode_close
    unfolding handle_frame send
    handle_frame-again f c c' h e = ground arith

    handle_frame-done :
        (f : Frame) (c c' : Conn) (opcode : ℕ) (payload : Text)
        → c.frag_opcode < opcode_close
        → handle_frame wire mask_at f c ≡ done (ok (opcode, payload)) c'
        → (c'.frag_opcode ≡ 0) × (0 < opcode) × (opcode < opcode_close)
    unfolding handle_frame send
    handle_frame-done f c c' opcode payload h e = ground arith

    -- A message that is delivered has a data opcode and leaves no fragment pending, if the pending
    -- opcode was one of a data frame.
    read_frame-IsClean :
        (n : ℕ) (c c' : Conn) (opcode : ℕ) (payload : Text)
        → c.frag_opcode < opcode_close
        → read_frame wire mask_at n c ≡ (ok (opcode, payload), c')
        → (c'.frag_opcode ≡ 0) × (0 < opcode) × (opcode < opcode_close)
    unfolding read_frame
    read_frame-IsClean zero c c' opcode payload h e = ground arith
    read_frame-IsClean (suc n) c c' opcode payload h e =
        elim (Result-cases (read_raw_frame wire c.compress c.input)) [
          | inl (x, k) ↦ ground arith
          | inr (r, k) ↦
              let c1 = record c { input = r.1 } in
              elim (Outcome-cases (handle_frame wire mask_at r.0 c1)) [
                | inl (c2, k') ↦
                    read_frame-IsClean n c2 c' opcode payload (handle_frame-again r.0 c1 c2 h k')
                      (ground arith)
                | inr (q, c2, k') ↦ handle_frame-done r.0 c1 c' opcode payload h (ground arith)
              ]
        ]
