-- ===== src/Ws/Frame.antt =====
-- realtime/ws/wsconn.go: buildFrameHeaderZeroAlloc, writeFrame, parseExtendedPayloadLength,
-- readFramePayloadZeroAlloc and readRawFrame. A byte is a number below 256. The socket is the list of
-- bytes that are still to be read, and io.ReadFull fails where too few are left.
pub mod Bytes
pub mod RoundTrip
use Prim.Native.Nat.{bit_and, bit_or}
use aoni.Base.{
  ℕ, zero, suc, ◌+◌, ◌-◌, ◌*◌, ◌/◌, ◌%◌, ◌^◌, ◌≡◌, refl, ◌⊎◌, inl, inr, Bool, true, false, not,
  ◌&&◌, ◌||◌, List, [], ◌∷◌, ◌++◌, Option, none, some, ltb, leb, ◌==◌, if◌then◌else◌, length, take,
}
use aoni.Base.Text.{Text}

pub data Error : Type 0 where
  eof reserved_bits_set control_frame_fragmented control_frame_too_large frame_too_large : Error
  unexpected_continuation_frame incomplete_fragmentation deflate_failed : Error

pub data Result {ℓ} (A : Type ℓ) : Type ℓ where
  err : Error → Result A
  ok : A → Result A

infixl 5 ◌>>=◌
abbrev pub ◌>>=◌ {κ ℓ} : {B : Type ℓ} {A : Type κ} → Result A → (A → Result B) → Result B
r >>= next = elim r [ ok got ↦ next got | err failure ↦ err failure ]

infixl 5 ◌>>◌
abbrev pub ◌>>◌ {ℓ} : {B : Type ℓ} → Result (Unit {0}) → Result B → Result B
first >> after = elim first [ ok done ↦ after | err failure ↦ err failure ]

abbrev pub refuse : Bool → Error → Result (Unit {0})
refuse true e = err e
refuse false e = ok tt

-- The end of what a flate writer leaves after Flush, and the bytes wsTail of compression.go.
abbrev pub sync_marker : Text
sync_marker = 0x00 ∷ 0x00 ∷ 0xff ∷ 0xff ∷ []

abbrev pub ws_tail : Text
ws_tail = 0x00 ∷ 0x00 ∷ 0xff ∷ 0xff ∷ 0x01 ∷ 0x00 ∷ 0x00 ∷ 0xff ∷ 0xff ∷ []

-- What the connection uses of packages that are not in the repository: simd.XORMask32, which combines
-- a payload with a key of four bytes and undoes itself; the flate writer, whose Write and Flush leave
-- a block that ends in the sync marker; and the flate reader, which reads such a block back to the
-- end when an empty final block follows it.
pub record Wire : Type 0 where
  pub xor_mask : Text → Text → Text
  pub xor_mask_twice : (key p : Text) → xor_mask key (xor_mask key p) ≡ p
  pub length-xor_mask : (key p : Text) → length (xor_mask key p) ≡ length p
  pub flush : Text → Option Text
  pub read_all : Text → Option Text
  pub read_all-flush :
      (p raw : Text)
      → flush p ≡ some raw
      → (s : Text) × (raw ≡ s ++ sync_marker) × (read_all (s ++ ws_tail) ≡ some p)

pub Result-cases {ℓ} :
    {A : Type ℓ} (r : Result A) → ((e : Error) × (r ≡ err e)) ⊎ ((a : A) × (r ≡ ok a))
Result-cases (err e) = inl (e, refl)
Result-cases (ok a) = inr (a, refl)

abbrev pub max_frame_size : ℕ
max_frame_size = 16 * 1024 * 1024

abbrev pub opcode_continuation : ℕ
opcode_continuation = 0

abbrev pub opcode_text : ℕ
opcode_text = 1

abbrev pub opcode_binary : ℕ
opcode_binary = 2

abbrev pub opcode_close : ℕ
opcode_close = 8

abbrev pub opcode_ping : ℕ
opcode_ping = 9

abbrev pub opcode_pong : ℕ
opcode_pong = 10

-- binary.BigEndian.PutUint16 and PutUint64 at two and eight bytes.
abbrev pub put_be : ℕ → ℕ → Text
put_be zero n = []
put_be (suc k) n = (n / 256 ^ k % 256) ∷ put_be k n

-- binary.BigEndian.Uint16 and Uint64.
abbrev be_from : ℕ → Text → ℕ
be_from acc [] = acc
be_from acc (b ∷ s) = be_from (acc * 256 + b) s

abbrev pub be_value : Text → ℕ
be_value s = be_from 0 s

-- io.ReadFull of `n` bytes: the bytes and what is left.
abbrev pub cons_read : ℕ → Result (Text × Text) → Result (Text × Text)
cons_read b (ok (s, t)) = ok (b ∷ s, t)
cons_read b (err e) = err e

unfoldable pub read_full : ℕ → Text → Result (Text × Text)
read_full zero s = ok ([], s)
read_full (suc n) [] = err eof
read_full (suc n) (b ∷ s) = cons_read b (read_full n s)

abbrev pub first_byte : ℕ → Bool → ℕ
first_byte opcode compress =
    if compress then bit_or (bit_or 0x80 opcode) 0x40 else bit_or 0x80 opcode

abbrev pub second_byte : ℕ → Bool → ℕ
second_byte len is_client = if is_client then bit_or 0x80 len else bit_or 0 len

unfoldable pub build_frame_header : ℕ → ℕ → Bool → Bool → Text
build_frame_header opcode len compress is_client =
    if ltb len 126
    then first_byte opcode compress ∷ second_byte len is_client ∷ []
    else if leb len 0xffff
    then first_byte opcode compress ∷ second_byte 126 is_client ∷ put_be 2 len
    else first_byte opcode compress ∷ second_byte 127 is_client ∷ put_be 8 len

-- The length, and the bytes after it.
unfoldable pub parse_extended_payload_length : ℕ → Text → Result (ℕ × Text)
unfolding read_full
parse_extended_payload_length basic_len s =
    if basic_len == 126
    then (read_full 2 s >>= λ r. ok (be_value r.0, r.1))
    else if basic_len == 127
    then (read_full 8 s >>= λ r. ok (be_value r.0, r.1))
    else ok (basic_len, s)

pub record Frame : Type 0 where
  pub opcode : ℕ
  pub fin : Bool
  pub rsv1 : Bool
  pub payload : Text

module _ (wire : Wire) where
  -- compressNoContextTakeoverTo, which strips the last four bytes.
  unfoldable pub compress_no_context_takeover : Text → Option Text
  compress_no_context_takeover src = elim (wire.flush src) [
    | none ↦ none
    | some raw ↦ some (if leb 4 (length raw) then take (length raw - 4) raw else raw)
  ]

  -- decompressNoContextTakeoverTo, which reads wsTail behind the source.
  unfoldable pub decompress_no_context_takeover : Text → Option Text
  decompress_no_context_takeover src = wire.read_all (src ++ ws_tail)

  unfoldable pub read_frame_payload : ℕ → Bool → Text → Result (Text × Text)
  read_frame_payload len masked s = do
    refuse (ltb max_frame_size len) frame_too_large
    if masked
        then (read_full 4 s >>= λ k. (read_full len k.1 >>= λ r. ok (wire.xor_mask k.0 r.0, r.1)))
        else read_full len s

  -- `compress` says whether permessage-deflate was negotiated.
  unfoldable pub read_raw_frame : Bool → Text → Result (Frame × Text)
  read_raw_frame compress [] = err eof
  read_raw_frame compress (b0 ∷ []) = err eof
  read_raw_frame compress (b0 ∷ b1 ∷ s) = do
    refuse (not (bit_and b0 0x30 == 0)) reserved_bits_set
    let fin = not (bit_and b0 0x80 == 0)
    let rsv1 = not (bit_and b0 0x40 == 0)
    let opcode = bit_and b0 0x0f
    let masked = not (bit_and b1 0x80 == 0)
    refuse (rsv1 && not compress) reserved_bits_set
    r ← parse_extended_payload_length (bit_and b1 0x7f) s
    refuse (leb opcode_close opcode && rsv1) reserved_bits_set
    refuse (leb opcode_close opcode && not fin) control_frame_fragmented
    refuse (leb opcode_close opcode && ltb 125 r.0) control_frame_too_large
    p ← read_frame_payload r.0 masked r.1
    ok (record { opcode = opcode; fin = fin; rsv1 = rsv1; payload = p.0 }, p.1)

  -- The payload that is sent, and whether it was deflated.
  abbrev pub deflated : Bool → ℕ → Text → Result (Text × Bool)
  deflated compress opcode payload =
      if compress && ((opcode == opcode_text) || (opcode == opcode_binary))
      then (elim (compress_no_context_takeover payload) [
        | none ↦ err deflate_failed
        | some p ↦ ok (p, true)
      ])
      else ok (payload, false)

  -- The bytes that are written to the socket; `key` are the four bytes of randkit.Uint32.
  unfoldable pub write_frame : Bool → Bool → Text → ℕ → Text → Result Text
  unfolding build_frame_header
  write_frame is_client compress key opcode payload = do
    refuse (leb opcode_close opcode && ltb 125 (length payload)) control_frame_too_large
    d ← deflated compress opcode payload
    let header = build_frame_header opcode (length d.0) d.1 is_client
    ok (if is_client then header ++ (key ++ wire.xor_mask key d.0) else header ++ d.0)
