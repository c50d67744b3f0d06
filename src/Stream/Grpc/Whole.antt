-- ===== src/Stream/Grpc/Whole.antt =====
-- realtime/stream/stream.go and codec/decode/grpc.go: whole bodies of gRPC-Web frames, as the reader of
-- a stream and the decoder of a whole response read them.
use aoni.Base.{
  ℕ, zero, suc, ◌≤◌, ◌<◌, ◌≡◌, refl, ap, ◌∙◌, true, false, List, [], ◌∷◌, ◌++◌, map, none, some,
  All, arith, ltb, leb, length, length-append, take, take-append, drop-append,
}
use aoni.Base.Text.{Text}
use aoni.Ws.Frame.{put_be, be_value}
use aoni.Stream.Grpc.{
  eof, Codec, message, finished, bad, max_grpc_web_frame_size, process_grpc_web_frame, read_payload,
  read_next_grpc_web_frame, cons_value, all_values,
}

pub record GrpcFrame : Type 0 where
  pub flags : ℕ
  pub payload : Text

-- A frame and what follows it.
abbrev pub write_grpc_frame : GrpcFrame → Text → Text
write_grpc_frame f rest = f.flags ∷ (put_be 4 (length f.payload) ++ (f.payload ++ rest))

abbrev pub write_all : List GrpcFrame → Text → Text
write_all [] rest = rest
write_all (f ∷ fs) rest = write_grpc_frame f (write_all fs rest)

abbrev pub Fits : GrpcFrame → Type 0
Fits f = length f.payload ≤ max_grpc_web_frame_size

be_value-put_be_four : (n : ℕ) → n ≤ max_grpc_web_frame_size → be_value (put_be 4 n) ≡ n
be_value-put_be_four n h = omega arith

Fits-small : (f : GrpcFrame) → Fits f → ltb max_grpc_web_frame_size (length f.payload) ≡ false
Fits-small f h = ground arith

unread : (f : GrpcFrame) → 0 < length f.payload → leb (length f.payload) 0 ≡ false
unread f h = ground arith

leb-append : (s t : Text) → leb (length s) (length (s ++ t)) ≡ true
leb-append s t = ground (arith, length-append s t)

module _ {ℓ} {A : Type ℓ} (x : Codec A) where
  read_payload-frame :
      (f : GrpcFrame) (rest : Text)
      → Fits f
      → read_payload x f.flags (length f.payload) (f.payload ++ rest)
        ≡ (process_grpc_web_frame x f.flags f.payload, rest)
  read_payload-frame f rest h =
      rw
        (
          read_payload,
          Fits-small f h,
          leb-append f.payload rest,
          take-append f.payload rest,
          drop-append f.payload rest,
        )
        refl

  read_next_grpc_web_frame-frame :
      (f : GrpcFrame) (rest : Text)
      → Fits f
      → read_next_grpc_web_frame x (write_grpc_frame f rest)
        ≡ (process_grpc_web_frame x f.flags f.payload, rest)
  unfolding read_next_grpc_web_frame
  read_next_grpc_web_frame-frame f rest h =
      ap (λ n. read_payload x f.flags n (f.payload ++ rest))
        (be_value-put_be_four (length f.payload) h)
      ∙ read_payload-frame f rest h

  pub all_values-next :
      (fuel : ℕ) (body rest : Text) (a : A)
      → (read_next_grpc_web_frame x body).0 ≡ message a
      → (read_next_grpc_web_frame x body).1 ≡ rest
      → all_values x (suc fuel) body ≡ cons_value a (all_values x fuel rest)
  unfolding all_values
  all_values-next fuel body rest a e r = rw (all_values, e, r) refl

  pub all_values-last :
      (fuel : ℕ) (body : Text)
      → (read_next_grpc_web_frame x body).0 ≡ finished
      → all_values x (suc fuel) body ≡ some ([], none)
  unfolding all_values
  all_values-last fuel body e = rw (all_values, e) refl

  all_values-cut :
      (fuel : ℕ) (body : Text)
      → (read_next_grpc_web_frame x body).0 ≡ bad eof
      → all_values x (suc fuel) body ≡ some ([], none)
  unfolding all_values
  all_values-cut fuel body e = rw (all_values, e) refl

  read_next_grpc_web_frame-header :
      (f : GrpcFrame)
      → Fits f
      → 0 < length f.payload
      → read_next_grpc_web_frame x (take 5 (write_grpc_frame f [])) ≡ (bad eof, [])
  unfolding read_next_grpc_web_frame
  read_next_grpc_web_frame-header f small long =
      ap (λ n. read_payload x f.flags n []) (be_value-put_be_four (length f.payload) small)
      ∙ rw (read_payload, Fits-small f small, unread f long) refl

  all_values-message :
      (fuel : ℕ) (f : GrpcFrame) (rest : Text) (a : A)
      → Fits f
      → process_grpc_web_frame x f.flags f.payload ≡ message a
      → all_values x (suc fuel) (write_grpc_frame f rest) ≡ cons_value a (all_values x fuel rest)
  all_values-message fuel f rest a h e =
      all_values-next fuel (write_grpc_frame f rest) rest a
        (ap (λ r. r.0) (read_next_grpc_web_frame-frame f rest h) ∙ e)
        (ap (λ r. r.1) (read_next_grpc_web_frame-frame f rest h))

  all_values-finished :
      (fuel : ℕ) (f : GrpcFrame) (rest : Text)
      → Fits f
      → process_grpc_web_frame x f.flags f.payload ≡ finished
      → all_values x (suc fuel) (write_grpc_frame f rest) ≡ some ([], none)
  all_values-finished fuel f rest h e =
      all_values-last fuel (write_grpc_frame f rest)
        (ap (λ r. r.0) (read_next_grpc_web_frame-frame f rest h) ∙ e)

  module _ (value : GrpcFrame → A) where
    -- A frame that holds a message.
    pub record IsMessage (f : GrpcFrame) : Type ℓ where
      pub small : Fits f
      pub decodes : process_grpc_web_frame x f.flags f.payload ≡ message (value f)

    all_values-write_all :
        (fs : List GrpcFrame) (rest : Text)
        → All IsMessage fs
        → all_values x 1 rest ≡ some ([], none)
        → all_values x (suc (length fs)) (write_all fs rest) ≡ some (map value fs, none)
    all_values-write_all [] rest h e = e
    all_values-write_all (f ∷ fs) rest (hf, h) e =
        all_values-message (suc (length fs)) f (write_all fs rest) (value f) hf.small hf.decodes
        ∙ ap (cons_value (value f)) (all_values-write_all fs rest h e)

    -- The messages of a stream come out of it in their order and without an error: the body is the
    -- frames, none longer than the limit of 16 MB and each decoded to a value, and a last frame, that
    -- is a trailer with a good status.
    pub all_values-frames :
        (fs : List GrpcFrame) (last : GrpcFrame) (rest : Text)
        → All IsMessage fs
        → Fits last
        → process_grpc_web_frame x last.flags last.payload ≡ finished
        → all_values x (suc (length fs)) (write_all fs (write_grpc_frame last rest))
          ≡ some (map value fs, none)
    all_values-frames fs last rest h small e =
        all_values-write_all fs (write_grpc_frame last rest) h
          (all_values-finished 0 last rest small e)

    all_values-header :
        (f : GrpcFrame) (k : ℕ)
        → Fits f
        → 0 < length f.payload
        → k ≤ 5
        → all_values x 1 (take k (write_grpc_frame f [])) ≡ some ([], none)
    unfolding all_values read_next_grpc_web_frame
    all_values-header f zero small long h = refl
    all_values-header f (suc zero) small long h = refl
    all_values-header f (suc (suc zero)) small long h = refl
    all_values-header f (suc (suc (suc zero))) small long h = refl
    all_values-header f (suc (suc (suc (suc zero)))) small long h = refl
    all_values-header f (suc (suc (suc (suc (suc zero))))) small long h =
        all_values-cut 0 (take 5 (write_grpc_frame f []))
          (ap (λ r. r.0) (read_next_grpc_web_frame-header f small long))
    all_values-header f (suc (suc (suc (suc (suc (suc k)))))) small long h = absurd (omega arith)

    -- A stream that breaks off in the header of a frame, or right behind it, ends like one that is
    -- complete: its messages are yielded and no error is. The frames before the break are as long as
    -- the limit at most and each is decoded to a value, and the payload that is missing is not empty.
    pub all_values-truncated :
        (fs : List GrpcFrame) (next : GrpcFrame) (k : ℕ)
        → All IsMessage fs
        → Fits next
        → 0 < length next.payload
        → k ≤ 5
        → all_values x (suc (length fs)) (write_all fs (take k (write_grpc_frame next [])))
          ≡ some (map value fs, none)
    all_values-truncated fs next k h small long le =
        all_values-write_all fs (take k (write_grpc_frame next [])) h
          (all_values-header next k small long le)
