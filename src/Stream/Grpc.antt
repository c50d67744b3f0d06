-- ===== src/Stream/Grpc.antt =====
-- realtime/stream/stream.go and codec/decode/grpc.go: the frames of gRPC-Web, of five bytes of header
-- and a payload, and the trailer that ends them. A body is the bytes that the connection still
-- gives, up to EOF.
pub mod Whole
pub mod Decoder
use aoni.Base.{
  ℕ, zero, suc, ◌+◌, ◌*◌, ◌/◌, ◌%◌, ◌^◌, ◌==◌, Bool, true, false, not, ◌&&◌, ◌||◌, List, [], ◌∷◌,
  ◌++◌, Option, none, some, ltb, leb, if◌then◌else◌, length, take, drop,
}
use aoni.Base.Text.{Text, bytes, text_eq, is_empty, trim_space}
use aoni.Ws.Frame.{be_value}
use aoni.Stream.Sse.{cut_colon}

-- 16 MB.
abbrev pub max_grpc_web_frame_size : ℕ
max_grpc_web_frame_size = 16 * 1024 * 1024

-- bad_status is ErrGRPCWebStatusError with the code, the message and the details, if there are any.
pub data Error : Type 0 where
  eof unexpected_eof too_large decompress_failed unmarshal_failed : Error
  invalid_header invalid_payload : Error
  bad_status : Text → Text → Text → Error

-- The packages that the frames are read with: bytesconv.EqualFoldASCII, the names of headkit, the
-- two decoders of base64, compress.Gunzip and proto.Unmarshal.
pub record Codec {ℓ} (A : Type ℓ) : Type ℓ where
  pub equal_fold_ascii : Text → Text → Bool
  pub grpc_status : Text
  pub grpc_message : Text
  pub grpc_status_details_bin : Text
  pub raw_std_decode : Text → Option Text
  pub std_decode : Text → Option Text
  pub gunzip : Text → Option Text
  pub unmarshal : Text → Option A

pub record Trailer : Type 0 where
  pub status_code : Text
  pub status_msg : Text
  pub status_details : Text

abbrev first_some : Text → Option Text → Option Text → Text
first_some old (some a) b = a
first_some old none (some b) = b
first_some old none none = old

-- The line up to a newline, and whether what follows is another.
abbrev cons_line : ℕ → List Text → List Text
cons_line c [] = (c ∷ []) ∷ []
cons_line c (line ∷ rest) = (c ∷ line) ∷ rest

-- The lines, each up to a newline or to the end.
unfoldable pub trailer_lines : Text → List Text
trailer_lines [] = []
trailer_lines (c ∷ s) = elim (c == b'\n') [
  | true ↦ [] ∷ trailer_lines s
  | false ↦ cons_line c (trailer_lines s)
]

-- A message, the good end of the stream, or an error.
pub data Processed {ℓ} (A : Type ℓ) : Type ℓ where
  message : A → Processed A
  finished : Processed A
  bad : Error → Processed A

pub data Decoded {ℓ} (A : Type ℓ) : Type ℓ where
  decoded : A → Decoded A
  failed : Error → Decoded A
  no_fuel : Decoded A

abbrev ended_by {ℓ} : {A : Type ℓ} → Option Error → Processed A
ended_by none = finished
ended_by (some e) = bad e

abbrev pub reported : Error → Option Error
reported eof = none
reported e = some e

abbrev pub cons_value {ℓ} :
    {A : Type ℓ} → A → Option (List A × Option Error) → Option (List A × Option Error)
cons_value a none = none
cons_value a (some (values, e)) = some (a ∷ values, e)

module _ {ℓ} {A : Type ℓ} (x : Codec A) where
  abbrev set_trailer : Text → Text → Trailer → Trailer
  set_trailer key value t =
      if x.equal_fold_ascii key x.grpc_status
      then record t { status_code = value }
      else if x.equal_fold_ascii key x.grpc_message
      then record t { status_msg = value }
      else if x.equal_fold_ascii key x.grpc_status_details_bin
      then record t {
        status_details = first_some t.status_details (x.raw_std_decode value) (x.std_decode value);
      }
      else t

  abbrev set_trailer_line : Option (Text × Text) → Trailer → Trailer
  set_trailer_line none t = t
  set_trailer_line (some (key, value)) t = set_trailer (trim_space key) (trim_space value) t

  abbrev read_trailer : List Text → Trailer → Trailer
  read_trailer [] t = t
  read_trailer (line ∷ rest) t = read_trailer rest (set_trailer_line (cut_colon line) t)

  abbrev status_error : Trailer → Option Error
  status_error t =
      if not (is_empty t.status_code) && not (text_eq t.status_code (bytes "0"))
      then some (bad_status t.status_code t.status_msg t.status_details)
      else none

  unfoldable pub verify_grpc_trailer : Text → Option Error
  verify_grpc_trailer payload = status_error (
      read_trailer (trailer_lines payload)
        (record { status_code = []; status_msg = []; status_details = [] }))

  abbrev unpacked : ℕ → Text → Option Text
  unpacked flags payload = if flags % 2 == 1 then x.gunzip payload else some payload

  abbrev decoded_proto : Option Text → Processed A
  decoded_proto none = bad decompress_failed
  decoded_proto (some payload) = elim (x.unmarshal payload) [
    | none ↦ bad unmarshal_failed
    | some a ↦ message a
  ]

  abbrev decode_proto_payload : Text → ℕ → Processed A
  decode_proto_payload payload flags = decoded_proto (unpacked flags payload)

  -- What both readers make of a frame.
  unfoldable pub process_grpc_web_frame : ℕ → Text → Processed A
  process_grpc_web_frame flags payload =
      if flags / 128 % 2 == 1
      then ended_by (verify_grpc_trailer payload)
      else decode_proto_payload payload flags

  -- The result, and what the connection still gives.
  abbrev pub read_payload : ℕ → ℕ → Text → Processed A × Text
  read_payload flags n rest =
      if ltb max_grpc_web_frame_size n
      then (bad too_large, rest)
      else if leb n (length rest)
      then (process_grpc_web_frame flags (take n rest), drop n rest)
      else (bad (if is_empty rest then eof else unexpected_eof), [])

  unfoldable pub read_next_grpc_web_frame : Text → Processed A × Text
  read_next_grpc_web_frame (flags ∷ a ∷ b ∷ c ∷ d ∷ rest) =
      read_payload flags (be_value (a ∷ b ∷ c ∷ d ∷ [])) rest
  read_next_grpc_web_frame _ = (finished, [])

  -- The loop of All: the values, and the error if one is yielded; none if the fuel runs out.
  unfoldable pub all_values : ℕ → Text → Option (List A × Option Error)
  all_values zero body = none
  all_values (suc fuel) body = elim (read_next_grpc_web_frame body).0 [
    | finished ↦ some ([], none)
    | bad e ↦ some ([], reported e)
    | message a ↦ cons_value a (all_values fuel (read_next_grpc_web_frame body).1)
  ]

  -- readGRPCWebFramesBytes, which decodes every message into the same target.
  unfoldable pub read_grpc_web_frames_bytes : ℕ → Text → A → Decoded A
  read_grpc_web_frames_bytes zero body msg = no_fuel
  read_grpc_web_frames_bytes (suc fuel) [] msg = decoded msg
  read_grpc_web_frames_bytes (suc fuel) (flags ∷ a ∷ b ∷ c ∷ d ∷ rest) msg =
      let n = be_value (a ∷ b ∷ c ∷ d ∷ []) in
      elim (leb n (length rest % 2 ^ 32)) [
        | false ↦ failed invalid_payload
        | true ↦ elim (process_grpc_web_frame flags (take n rest)) [
          | finished ↦ decoded msg
          | bad e ↦ failed e
          | message m ↦ read_grpc_web_frames_bytes fuel (drop n rest) m
        ]
      ]
  read_grpc_web_frames_bytes (suc fuel) _ msg = failed invalid_header
