-- ===== src/Ws/Tests.antt =====
-- Runs and instances for the framing.
use mathlib.Core.List.{reverse, reverse-reverse, reverse-cons}
use aoni.Base.{
  ℕ, zero, suc, ◌-◌, ◌≡◌, refl, ap, ◌∙◌, inl, inr, Bool, true, false, List, [], ◌∷◌, ◌++◌, Option,
  none, some, arith, length, length-append, take, take-append, All,
}
use aoni.Base.Text.{Text, bytes}
use aoni.Ws.Frame.{
  ok, err, eof, Wire, Frame, sync_marker, ws_tail, compress_no_context_takeover, read_full,
  parse_extended_payload_length, read_frame_payload, read_raw_frame, write_frame,
}
use aoni.Ws.Frame.RoundTrip.{read_raw_frame-write_frame}
use aoni.Ws.Message.{Conn, handle_frame, send, read_frame, read_message}
use aoni.Ws.Message.Fragments.{IsBetween, Arrives, read_message-fragments, read_message-long}
use aoni.Ws.Message.Control.{read_message-write_frame}

length-reverse : (s : Text) → length (reverse s) ≡ length s
length-reverse [] = refl
length-reverse (x ∷ s) =
    omega
      (arith, ap length (reverse-cons x s), length-append (reverse s) (x ∷ []), length-reverse s)

abbrev read_all : Text → Option Text
read_all [] = none
read_all (x ∷ s) = some (take (length s - 9) s)

read_all-flush :
    (p raw : Text)
    → some ((0 ∷ p) ++ sync_marker) ≡ some raw
    → (s : Text) × (raw ≡ s ++ sync_marker) × (read_all (s ++ ws_tail) ≡ some p)
read_all-flush p raw e = (
  0 ∷ p,
  ground arith,
  ap some (
      ap (λ n. take n (p ++ ws_tail)) (omega (arith, length-append p ws_tail))
      ∙ take-append p ws_tail),
)

-- A stand-in for the packages: a mask that turns the payload round, and a writer that adds a byte.
abbrev mirror : Wire
mirror = record {
  xor_mask = λ key p. reverse p;
  xor_mask_twice = λ key p. reverse-reverse p;
  length-xor_mask = λ key p. length-reverse p;
  flush = λ p. some ((0 ∷ p) ++ sync_marker);
  read_all = read_all;
  read_all-flush = read_all-flush;
}

abbrev key : Text
key = 1 ∷ 2 ∷ 3 ∷ 4 ∷ []

abbrev keys : ℕ → Text
keys n = key

frame_tests : Unit {0}
unfolding write_frame read_raw_frame read_frame_payload read_full parse_extended_payload_length
    read_frame handle_frame send read_message
frame_tests = tt

written : write_frame mirror false false key 1 (bytes "ab") ≡ ok (0x81 ∷ 2 ∷ bytes "ab")
unfolding write_frame
written = refl

masked :
    write_frame mirror true true key 1 (bytes "ab") ≡ ok (0xc1 ∷ 0x83 ∷ key ++ bytes "ba" ++ 0 ∷ [])
unfolding write_frame compress_no_context_takeover
masked = refl

read_raw_frame-write_frame_example :
    (sent : Text) × (write_frame mirror true true key 1 (bytes "ab") ≡ ok sent)
    × (read_raw_frame mirror true (sent ++ bytes "z")
        ≡ ok (record { opcode = 1; fin = true; rsv1 = true; payload = 0 ∷ bytes "ab" }, bytes "z"))
unfolding compress_no_context_takeover
read_raw_frame-write_frame_example =
    read_raw_frame-write_frame mirror true true true key (bytes "ab") (0 ∷ bytes "ab") (bytes "z") 1
      (omega arith) refl (omega arith) (inl (omega arith)) refl

abbrev frame : ℕ → Bool → Text → Frame
frame opcode fin p = record { opcode = opcode; fin = fin; rsv1 = false; payload = p }

abbrev conn : Text → Conn
conn s = record {
  is_client = true;
  compress = false;
  input = s;
  output = [];
  frag_opcode = 0;
  frag_buf = [];
  frag_compress = false;
  draws = 0;
  closed = false;
}

-- "ab" as text, a ping, "c", "d", and one byte more.
abbrev stream : Text
stream = 0x01 ∷ 2 ∷ 97 ∷ 98 ∷ 0x89 ∷ 0 ∷ 0x00 ∷ 1 ∷ 99 ∷ 0x80 ∷ 1 ∷ 100 ∷ 7 ∷ []

abbrev middle : List Frame
middle = frame 9 true [] ∷ frame 0 false (bytes "c") ∷ []

read_message-fragments_example :
    (c' : Conn) × (read_message mirror keys (conn stream) ≡ (ok (1, bytes "abcd"), c'))
    × (c'.frag_opcode ≡ 0)
    × (c'.input ≡ 7 ∷ [])
unfolding frame_tests
read_message-fragments_example =
    read_message-fragments mirror keys (frame 1 false (bytes "ab")) (frame 0 true (bytes "d"))
      middle (conn stream) (0x89 ∷ 0 ∷ 0x00 ∷ 1 ∷ 99 ∷ 0x80 ∷ 1 ∷ 100 ∷ 7 ∷ [])
      (0x80 ∷ 1 ∷ 100 ∷ 7 ∷ []) (7 ∷ []) (omega arith, (λ e. ground arith), refl)
      (inl refl, (inr (inr (refl, refl)), tt)) refl refl refl (omega arith) refl
      (_, refl, (_, refl, refl)) refl

abbrev pongs : ℕ → Text
pongs zero = []
pongs (suc n) = 0x8a ∷ 0 ∷ pongs n

abbrev pong_frames : ℕ → List Frame
pong_frames zero = []
pong_frames (suc n) = frame 10 true [] ∷ pong_frames n

pong_frames-All : (n : ℕ) → All IsBetween (pong_frames n)
pong_frames-All zero = tt
pong_frames-All (suc n) = (inr (inl refl), pong_frames-All n)

pongs-Arrives : (n : ℕ) → Arrives mirror false (pongs n) (pong_frames n) []
unfolding frame_tests
pongs-Arrives zero = refl
pongs-Arrives (suc n) = (pongs n, refl, pongs-Arrives n)

abbrev endless : Conn
endless = conn (0x01 ∷ 1 ∷ 97 ∷ pongs 99)

read_message-long_example :
    ((read_message mirror keys endless).0 ≡ err eof)
    × ((read_message mirror keys endless).1.frag_opcode ≡ 1)
unfolding read_raw_frame read_frame_payload read_full parse_extended_payload_length
read_message-long_example =
    read_message-long mirror keys (frame 1 false (bytes "a")) (pong_frames 99) endless (pongs 99) []
      (omega arith, (λ e. ground arith), refl) (pong_frames-All 99) refl refl refl
      (pongs-Arrives 99)

abbrev zipped : Conn
zipped = record (conn []) { compress = true; is_client = false }

read_message-write_frame_example :
    (sent : Text) × (write_frame mirror true true key 1 (bytes "ab") ≡ ok sent)
    × (read_message mirror keys (record zipped { input = sent ++ bytes "z" })
        ≡ (ok (1, bytes "ab"), record zipped { input = bytes "z" }))
unfolding compress_no_context_takeover
read_message-write_frame_example =
    read_message-write_frame mirror keys true true key (bytes "ab") (0 ∷ bytes "ab") (bytes "z") 1
      zipped (omega arith) (λ e. ground arith) refl (omega arith) refl refl
