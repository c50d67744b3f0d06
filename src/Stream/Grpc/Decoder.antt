-- ===== src/Stream/Grpc/Decoder.antt =====
-- codec/decode/grpc.go: the decoder of a whole response of gRPC-Web frames, beside the reader of a stream.
use aoni.Base.{
  ℕ, ◌%◌, ◌^◌, zero, suc, ◌≤◌, ◌<◌, ◌≡◌, ◌≢◌, refl, sym, ap, ◌∙◌, inl, inr, true, false, List, [],
  ◌∷◌, none, some, arith, ltb, leb, length, take, drop, Bool-cases,
}
use aoni.Base.Text.{Text}
use aoni.Ws.Frame.{be_value}
use aoni.Stream.Grpc.{
  Codec, Processed, message, finished, bad, Decoded, decoded, failed, no_fuel, invalid_payload,
  max_grpc_web_frame_size, process_grpc_web_frame, read_payload, read_next_grpc_web_frame,
  cons_value, all_values, read_grpc_web_frames_bytes,
}
use aoni.Stream.Grpc.Whole.{all_values-next, all_values-last}

enough_bytes :
    (n len : ℕ) → leb n (len % 2 ^ 32) ≡ true → len ≤ max_grpc_web_frame_size → leb n len ≡ true
enough_bytes n len e h = ground arith

not_over :
    (n len : ℕ)
    → leb n len ≡ true
    → len ≤ max_grpc_web_frame_size
    → ltb max_grpc_web_frame_size n ≡ false
not_over n len e h = ground arith

-- The number that a header announces.
abbrev announced : ℕ → ℕ → ℕ → ℕ → ℕ
announced a b c d = be_value (a ∷ b ∷ c ∷ d ∷ [])

length-drop : (n : ℕ) (s : Text) → length (drop n s) ≤ length s
length-drop zero s = omega arith
length-drop (suc n) [] = omega arith
length-drop (suc n) (c ∷ s) = omega (arith, length-drop n s)

-- What the target holds after the messages.
abbrev pub last_of {ℓ} : {A : Type ℓ} → A → List A → A
last_of a [] = a
last_of a (b ∷ rest) = last_of b rest

module _ {ℓ} {A : Type ℓ} (x : Codec A) where
  -- The stream yields values and no error, and the last is m.
  abbrev pub Agree : ℕ → Text → A → A → Type ℓ
  Agree fuel body msg m =
      (values : List A) × ((all_values x fuel body ≡ some (values, none))
        × (last_of msg values ≡ m))

  abbrev after_frame : ℕ → A → Processed A → Text → Decoded A
  after_frame fuel msg finished rest = decoded msg
  after_frame fuel msg (bad e) rest = failed e
  after_frame fuel msg (message m) rest = read_grpc_web_frames_bytes x fuel rest m

  not_decoded : {B : Type ℓ} (m : A) → failed invalid_payload ≡ decoded m → B
  not_decoded m h = cc

  module _ (flags a b c d : ℕ) (rest : Text) where
    read_next_grpc_web_frame-enough :
        leb (announced a b c d) (length rest) ≡ true
        → length rest ≤ max_grpc_web_frame_size
        → read_next_grpc_web_frame x (flags ∷ a ∷ b ∷ c ∷ d ∷ rest) ≡ (
          process_grpc_web_frame x flags (take (announced a b c d) rest),
          drop (announced a b c d) rest,
        )
    unfolding read_next_grpc_web_frame
    read_next_grpc_web_frame-enough e h =
        rw (read_payload, not_over (announced a b c d) (length rest) e h, e) refl

    frames_bytes-short :
        (fuel : ℕ) (msg : A)
        → leb (announced a b c d) (length rest % 2 ^ 32) ≡ false
        → read_grpc_web_frames_bytes x (suc fuel) (flags ∷ a ∷ b ∷ c ∷ d ∷ rest) msg
          ≡ failed invalid_payload
    unfolding read_grpc_web_frames_bytes
    frames_bytes-short fuel msg e = rw (read_grpc_web_frames_bytes, e) refl

    frames_bytes-step :
        (fuel : ℕ) (msg : A) (p : Processed A)
        → leb (announced a b c d) (length rest % 2 ^ 32) ≡ true
        → process_grpc_web_frame x flags (take (announced a b c d) rest) ≡ p
        → read_grpc_web_frames_bytes x (suc fuel) (flags ∷ a ∷ b ∷ c ∷ d ∷ rest) msg
          ≡ after_frame fuel msg p (drop (announced a b c d) rest)
    unfolding read_grpc_web_frames_bytes
    frames_bytes-step fuel msg finished e k = rw (read_grpc_web_frames_bytes, e, k) refl
    frames_bytes-step fuel msg (bad x') e k = rw (read_grpc_web_frames_bytes, e, k) refl
    frames_bytes-step fuel msg (message m) e k = rw (read_grpc_web_frames_bytes, e, k) refl

    agrees-step :
        (fuel : ℕ) (msg m : A) (p : Processed A)
        → leb (announced a b c d) (length rest % 2 ^ 32) ≡ true
        → length rest ≤ max_grpc_web_frame_size
        → process_grpc_web_frame x flags (take (announced a b c d) rest) ≡ p
        → ((m' : A)
            → read_grpc_web_frames_bytes x fuel (drop (announced a b c d) rest) m' ≡ decoded m
            → Agree fuel (drop (announced a b c d) rest) m' m)
        → after_frame fuel msg p (drop (announced a b c d) rest) ≡ decoded m
        → Agree (suc fuel) (flags ∷ a ∷ b ∷ c ∷ d ∷ rest) msg m
    agrees-step fuel msg m (bad e) enough small k ih h = cc
    agrees-step fuel msg m finished enough small k ih h = (
      [],
      (
        all_values-last x fuel (flags ∷ a ∷ b ∷ c ∷ d ∷ rest) (
            ap (λ r. r.0)
              (read_next_grpc_web_frame-enough
                (enough_bytes (announced a b c d) (length rest) enough small) small)
            ∙ k),
        cc,
      ),
    )
    agrees-step fuel msg m (message m') enough small k ih h =
        let (values, (yielded, last)) = ih m' h in
        (
          m' ∷ values,
          (
            all_values-next x fuel (flags ∷ a ∷ b ∷ c ∷ d ∷ rest) (drop (announced a b c d) rest) m'
                  (ap (λ r. r.0)
                      (read_next_grpc_web_frame-enough
                        (enough_bytes (announced a b c d) (length rest) enough small) small)
                    ∙ k)
                  (ap (λ r. r.1)
                    (read_next_grpc_web_frame-enough
                      (enough_bytes (announced a b c d) (length rest) enough small) small))
                ∙ ap (cons_value m') yielded,
            last,
          ),
        )

  -- A whole body that the decoder of responses takes, no longer than the limit of 16 MB, is one from
  -- which the reader of a stream yields some values and no error; the last of them, or what the
  -- target held before if there are none, is what the decoder gives. (Both loops have the same fuel.)
  pub read_grpc_web_frames_bytes-Agrees :
      (fuel : ℕ) (body : Text) (msg m : A)
      → length body ≤ max_grpc_web_frame_size
      → read_grpc_web_frames_bytes x fuel body msg ≡ decoded m
      → Agree fuel body msg m
  unfolding read_grpc_web_frames_bytes read_next_grpc_web_frame
  read_grpc_web_frames_bytes-Agrees zero body msg m small h = cc
  read_grpc_web_frames_bytes-Agrees (suc fuel) [] msg m small h =
      ([], (all_values-last x fuel [] refl, cc))
  read_grpc_web_frames_bytes-Agrees (suc fuel) (flags ∷ []) msg m small h = cc
  read_grpc_web_frames_bytes-Agrees (suc fuel) (flags ∷ a ∷ []) msg m small h = cc
  read_grpc_web_frames_bytes-Agrees (suc fuel) (flags ∷ a ∷ b ∷ []) msg m small h = cc
  read_grpc_web_frames_bytes-Agrees (suc fuel) (flags ∷ a ∷ b ∷ c ∷ []) msg m small h = cc
  read_grpc_web_frames_bytes-Agrees (suc fuel) (flags ∷ a ∷ b ∷ c ∷ d ∷ rest) msg m small h =
      elim (Bool-cases (leb (announced a b c d) (length rest % 2 ^ 32))) [
        | inr short ↦ not_decoded m (sym (frames_bytes-short flags a b c d rest fuel msg short) ∙ h)
        | inl enough ↦
            let n = announced a b c d in
            let p = process_grpc_web_frame x flags (take n rest) in
            agrees-step flags a b c d rest fuel msg m p enough (omega arith) refl
              (λ m'.
                read_grpc_web_frames_bytes-Agrees fuel (drop n rest) m' m
                  (omega (arith, length-drop n rest)))
              (sym (frames_bytes-step flags a b c d rest fuel msg p enough refl) ∙ h)
      ]

  terminates-step :
      (flags a b c d : ℕ) (rest : Text) (fuel : ℕ) (msg : A) (p : Processed A)
      → leb (announced a b c d) (length rest % 2 ^ 32) ≡ true
      → process_grpc_web_frame x flags (take (announced a b c d) rest) ≡ p
      → ((m : A) → read_grpc_web_frames_bytes x fuel (drop (announced a b c d) rest) m ≢ no_fuel)
      → read_grpc_web_frames_bytes x (suc fuel) (flags ∷ a ∷ b ∷ c ∷ d ∷ rest) msg ≢ no_fuel
  terminates-step flags a b c d rest fuel msg (bad e) enough k ih =
      rw (frames_bytes-step flags a b c d rest fuel msg (bad e) enough k) (λ h. cc)
  terminates-step flags a b c d rest fuel msg finished enough k ih =
      rw (frames_bytes-step flags a b c d rest fuel msg finished enough k) (λ h. cc)
  terminates-step flags a b c d rest fuel msg (message m) enough k ih =
      rw (frames_bytes-step flags a b c d rest fuel msg (message m) enough k) (ih m)

  -- The decoder comes to an end on every body: one unit of fuel more than the body has bytes is
  -- enough.
  pub read_grpc_web_frames_bytes-terminates :
      (fuel : ℕ) (body : Text) (msg : A)
      → length body < fuel
      → read_grpc_web_frames_bytes x fuel body msg ≢ no_fuel
  unfolding read_grpc_web_frames_bytes
  read_grpc_web_frames_bytes-terminates zero body msg h = absurd (omega arith)
  read_grpc_web_frames_bytes-terminates (suc fuel) [] msg h = λ e. cc
  read_grpc_web_frames_bytes-terminates (suc fuel) (flags ∷ []) msg h = λ e. cc
  read_grpc_web_frames_bytes-terminates (suc fuel) (flags ∷ a ∷ []) msg h = λ e. cc
  read_grpc_web_frames_bytes-terminates (suc fuel) (flags ∷ a ∷ b ∷ []) msg h = λ e. cc
  read_grpc_web_frames_bytes-terminates (suc fuel) (flags ∷ a ∷ b ∷ c ∷ []) msg h = λ e. cc
  read_grpc_web_frames_bytes-terminates (suc fuel) (flags ∷ a ∷ b ∷ c ∷ d ∷ rest) msg h =
      let n = announced a b c d in
      elim (Bool-cases (leb n (length rest % 2 ^ 32))) [
        | inr short ↦ rw (frames_bytes-short flags a b c d rest fuel msg short) (λ e. cc)
        | inl enough ↦
            terminates-step flags a b c d rest fuel msg
              (process_grpc_web_frame x flags (take n rest)) enough refl
              (λ m.
                read_grpc_web_frames_bytes-terminates fuel (drop n rest) m
                  (omega (arith, length-drop n rest)))
      ]
