-- ===== src/Ws/Frame/RoundTrip.antt =====
-- What write_frame sends, read_raw_frame reads back.
use Prim.Native.Nat.{bit_and}
use mathlib.Core.List.{append_assoc}
use aoni.Base.{
  ℕ, ◌≤◌, ◌<◌, ◌^◌, ◌≡◌, ap, ◌⊎◌, inl, inr, Bool, true, false, not, [], ◌∷◌, ◌++◌, arith, ltb, leb,
  ◌==◌, if◌then◌else◌, length, Bool-cases,
}
use aoni.Base.Text.{Text}
use aoni.Ws.Frame.{
  ok, Result-cases, Wire, Frame, max_frame_size, opcode_close, put_be, read_full, first_byte,
  second_byte, build_frame_header, parse_extended_payload_length, read_frame_payload,
  read_raw_frame, deflated, write_frame,
}
use aoni.Ws.Frame.Bytes.{
  first_byte_bits, second_byte_bits, read_full-append, read_full_exact, read_full-length,
  be_value-put_be_two, be_value-put_be_eight,
}

-- The seven bits of the length, and the bytes of a longer length.
abbrev length_code : ℕ → ℕ
length_code len = if ltb len 126 then len else if leb len 0xffff then 126 else 127

abbrev length_bytes : ℕ → Text
length_bytes len = if ltb len 126 then [] else if leb len 0xffff then put_be 2 len else put_be 8 len

header_parts :
    (opcode len : ℕ) (compress is_client : Bool)
    → build_frame_header opcode len compress is_client
      ≡ first_byte opcode compress ∷ second_byte (length_code len) is_client ∷ length_bytes len
unfolding build_frame_header
header_parts opcode len compress is_client = elim (Bool-cases (ltb len 126)) [
  | inl e ↦ rw e
  | inr e ↦ elim (Bool-cases (leb len 0xffff)) [ inl k ↦ rw (e, k) | inr k ↦ rw (e, k) ]
]

parse_length :
    (len : ℕ) (rest : Text)
    → len < 2 ^ 64
    → parse_extended_payload_length (length_code len) (length_bytes len ++ rest) ≡ ok (len, rest)
unfolding parse_extended_payload_length read_full
parse_length len rest h = elim (Bool-cases (ltb len 126)) [
  | inl e ↦ ground arith
  | inr e ↦ elim (Bool-cases (leb len 0xffff)) [
    | inl k ↦ rw (e, k) (ap (λ n. ok (n, rest)) (be_value-put_be_two len (ground arith)))
    | inr k ↦ rw (e, k) (ap (λ n. ok (n, rest)) (be_value-put_be_eight len h))
  ]
]

abbrev pub IsAllowed : Bool → Frame → Type 0
IsAllowed compress f =
    (length f.payload ≤ max_frame_size)
    × ((f.rsv1 ≡ false) ⊎ (compress ≡ true))
    × ((f.opcode < opcode_close) ⊎ ((f.fin ≡ true) × (f.rsv1 ≡ false) × (length f.payload ≤ 125)))

module _ (wire : Wire) where
  -- The bytes after the header.
  abbrev body : Bool → Text → Text → Text
  body masked key p = if masked then key ++ wire.xor_mask key p else p

  read_body :
      (masked : Bool) (key p rest : Text)
      → length key ≡ 4
      → length p ≤ max_frame_size
      → read_frame_payload wire (length p) masked (body masked key p ++ rest) ≡ ok (p, rest)
  unfolding read_frame_payload
  read_body true key p rest k h = ground (
    arith,
    append_assoc key (wire.xor_mask key p) rest,
    read_full_exact 4 key (wire.xor_mask key p ++ rest) k,
    read_full_exact (length p) (wire.xor_mask key p) rest (wire.length-xor_mask key p),
    wire.xor_mask_twice key p,
  )
  read_body false key p rest k h = ground (arith, read_full-append p rest)

  -- A frame with the given opcode and payload, as the header and the body give it to the reader.
  read_sent :
      (is_client compress z : Bool) (key p rest : Text) (opcode : ℕ)
      → opcode < 16
      → length key ≡ 4
      → length p ≤ max_frame_size
      → ((z ≡ false) ⊎ ((compress ≡ true) × (opcode < opcode_close)))
      → ((opcode < opcode_close) ⊎ (length p ≤ 125))
      → read_raw_frame wire compress (
          first_byte opcode z
          ∷ second_byte (length_code (length p)) is_client
          ∷ (length_bytes (length p) ++ (body is_client key p ++ rest)))
        ≡ ok (record { opcode = opcode; fin = true; rsv1 = z; payload = p }, rest)
  unfolding read_raw_frame
  read_sent is_client compress z key p rest opcode o k h hz hc =
      let (a, b, c, d) = first_byte_bits opcode z o in
      let (e, f) = second_byte_bits (length_code (length p)) is_client (ground arith) in
      ground (
        arith,
        parse_length (length p) (body is_client key p ++ rest) (omega arith),
        read_body is_client key p rest k h,
      )

  -- Data frames alone are deflated.
  deflated_cases :
      (compress z : Bool) (opcode : ℕ) (payload p : Text)
      → deflated wire compress opcode payload ≡ ok (p, z)
      → ((z ≡ false) × (p ≡ payload)) ⊎ ((z ≡ true) × (compress ≡ true) × (opcode < opcode_close))
  deflated_cases compress z opcode payload p d = ground arith

  written :
      (is_client compress z : Bool) (key payload p : Text) (opcode : ℕ)
      → ((opcode < opcode_close) ⊎ (length payload ≤ 125))
      → deflated wire compress opcode payload ≡ ok (p, z)
      → write_frame wire is_client compress key opcode payload
        ≡ ok (build_frame_header opcode (length p) z is_client ++ body is_client key p)
  unfolding write_frame
  written true compress z key payload p opcode hc d = ground arith
  written false compress z key payload p opcode hc d = ground arith

  -- A frame that is sent, with or without mask and compression, arrives with its opcode, as final,
  -- with RSV1 exactly if the payload was deflated, and with the payload that was sent; what follows on
  -- the wire is left. The opcode has four bits, the key four bytes, the deflated payload fits the
  -- reader's limit, and a control frame has at most 125 bytes.
  pub read_raw_frame-write_frame :
      (is_client compress z : Bool) (key payload p rest : Text) (opcode : ℕ)
      → opcode < 16
      → length key ≡ 4
      → length p ≤ max_frame_size
      → ((opcode < opcode_close) ⊎ (length payload ≤ 125))
      → deflated wire compress opcode payload ≡ ok (p, z)
      → (sent : Text) × (write_frame wire is_client compress key opcode payload ≡ ok sent)
        × (read_raw_frame wire compress (sent ++ rest)
            ≡ ok (record { opcode = opcode; fin = true; rsv1 = z; payload = p }, rest))
  read_raw_frame-write_frame is_client compress z key payload p rest opcode o k h hc d = (
    build_frame_header opcode (length p) z is_client ++ body is_client key p,
    ground (arith, written is_client compress z key payload p opcode hc d),
    rw (header_parts opcode (length p) z is_client) (
        rw (append_assoc (length_bytes (length p)) (body is_client key p) rest) (
          read_sent is_client compress z key p rest opcode o k h
            (ground (arith, deflated_cases compress z opcode payload p d))
            (ground (arith, deflated_cases compress z opcode payload p d)))),
  )

  read_frame_payload-length :
      (len : ℕ) (masked : Bool) (s p t : Text)
      → read_frame_payload wire len masked s ≡ ok (p, t)
      → (length p ≡ len) × (len ≤ max_frame_size)
  unfolding read_frame_payload
  read_frame_payload-length len false s p t h = ground (arith, read_full-length len s p t)
  read_frame_payload-length len true s p t h = elim (Result-cases (read_full 4 s)) [
    | inl (e, k) ↦ ground arith
    | inr (r, k) ↦ elim (Result-cases (read_full len r.1)) [
      | inl (e, k') ↦ ground arith
      | inr (q, k') ↦
          ground (arith, read_full-length len r.1 q.0 q.1 k', wire.length-xor_mask r.0 q.0)
    ]
  ]

  -- Whatever bytes arrive, a frame that is accepted has at most 16 MiB, has RSV1 only if compression
  -- was negotiated, and if it is a control frame it is final, not compressed and has at most 125
  -- bytes.
  pub read_raw_frame-IsAllowed :
      (compress : Bool) (s rest : Text) (f : Frame)
      → read_raw_frame wire compress s ≡ ok (f, rest)
      → IsAllowed compress f
  unfolding read_raw_frame
  read_raw_frame-IsAllowed compress [] rest f h = cc
  read_raw_frame-IsAllowed compress (b0 ∷ []) rest f h = cc
  read_raw_frame-IsAllowed compress (b0 ∷ b1 ∷ s) rest f h =
      elim (Result-cases (parse_extended_payload_length (bit_and b1 0x7f) s)) [
        | inl (e, k) ↦ ground arith
        | inr (r, k) ↦
            elim (Result-cases (read_frame_payload wire r.0 (not (bit_and b1 0x80 == 0)) r.1)) [
              | inl (e, k') ↦ ground arith
              | inr (q, k') ↦
                  ground (
                    arith,
                    read_frame_payload-length r.0 (not (bit_and b1 0x80 == 0)) r.1 q.0 q.1 k',
                  )
            ]
      ]
