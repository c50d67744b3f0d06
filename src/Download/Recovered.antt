-- ===== src/Download/Recovered.antt =====
-- internal/download/download.go: one good attempt is enough.
use aoni.Base.{
  ℕ, zero, suc, ◌+◌, ◌≤◌, ◌<◌, ◌≡◌, refl, sym, ◌⊎◌, inl, inr, false, Option, none, some, arith, ltb,
  leb, Bool-cases,
}
use mathlib.Core.Path.{subst}
use aoni.Base.Int.{is_positive, pos_part}
use aoni.Base.Text.{Text, is_empty}
use aoni.Download.{
  Error, Response, Downloader, World, Files, resolve_max_download_attempts,
  calculate_download_backoff, is_retryable_download_status, sleep_with_context,
  resolve_download_target, save_content, save_response_body_to_file, Report, Last, after_save,
  after_request, pause, after_pause, attempts, execute_download,
}

-- The timers run, no response has a status from 400 to 499, and attempt j gets a response below 400
-- that it can write.
pub record IsGoodAt (w : World) (j : ℕ) : Type 0 where
  pub no_end : (k d : ℕ) → w.wait k d ≡ none
  pub no_refusal :
      (k : ℕ) (r : Response) → w.request k ≡ inl r → (r.status_code < 400) ⊎ (500 ≤ r.status_code)
  pub response : Response
  pub answers : w.request j ≡ inl response
  pub accepted : response.status_code < 400
  pub made : (p : Text) → w.make_directory j p ≡ none
  pub created : (p : Text) → w.create j p ≡ none
  pub copied : (t : Text) → (w.copy j t).1 ≡ none

abbrev IsDone : ℕ → Report → Type 0
IsDone b r = (r.error ≡ none) × (r.requests ≤ b)

module _ (w : World) (d : Downloader) (path : Text) (j : ℕ) (good : IsGoodAt w j) where
  pause-none : (k : ℕ) → pause w d k ≡ none
  unfolding sleep_with_context
  pause-none k = elim (Bool-cases (ltb 0 k)) [
    | inr e ↦ rw e refl
    | inl e ↦
        let length = calculate_download_backoff k d.retry_override in
        elim (Bool-cases (is_positive length)) [
          | inl q ↦ rw (e, q) (good.no_end k (pos_part length))
          | inr q ↦ rw (e, q) refl
        ]
  ]

  save_content-good :
      (target : Text) (files : Files) (body : Option Text)
      → (save_content w j target files body).0 ≡ none
  save_content-good target files none = refl
  save_content-good target files (some body) = elim (Bool-cases (is_empty target)) [
    | inl q ↦ rw q refl
    | inr q ↦ rw (q, good.made (w.directory target), good.created target) (good.copied body)
  ]

  after_save-good :
      (r : Response) (last : Last) (s : Option Error × Files) (rest : Last → Report)
      → s.0 ≡ none
      → IsDone 0 (after_save r last s rest)
  after_save-good r last (none, files) rest h = (refl, omega arith)
  after_save-good r last (some e, files) rest h = absurd (cc h)

  after_save-IsDone :
      (b : ℕ) (r : Response) (last : Last) (s : Option Error × Files) (rest : Last → Report)
      → ((l : Last) → IsDone b (rest l))
      → IsDone b (after_save r last s rest)
  after_save-IsDone b r last (none, files) rest h = (refl, omega arith)
  after_save-IsDone b r last (some e, files) rest h = h _

  -- A status that neither ends the loop nor asks for another attempt.
  accepted_status :
      (k : ℕ) (r : Response)
      → w.request k ≡ inl r
      → is_retryable_download_status r.status_code ≡ false
      → leb 400 r.status_code ≡ false
  unfolding is_retryable_download_status
  accepted_status k r h q = ground (arith, good.no_refusal k r h)

  after_request-IsDone :
      (b k : ℕ) (x : Response ⊎ Error) (last : Last) (rest : Last → Report)
      → w.request k ≡ x
      → ((l : Last) → IsDone b (rest l))
      → IsDone b (after_request w d path k x last rest)
  after_request-IsDone b k (inr e) last rest h go = go _
  after_request-IsDone b k (inl r) last rest h go =
      elim (Bool-cases (is_retryable_download_status r.status_code)) [
        | inl q ↦ rw q (go _)
        | inr q ↦ rw (q, accepted_status k r h q) (after_save-IsDone b r last _ rest go)
      ]

  after_request-good :
      (last : Last) (rest : Last → Report)
      → IsDone 0 (after_request w d path j (w.request j) last rest)
  unfolding is_retryable_download_status save_response_body_to_file
  after_request-good last rest =
      let r = good.response in
      let soft : leb 500 r.status_code ≡ false = ground (arith, good.accepted) in
      let ok : leb 400 r.status_code ≡ false = ground (arith, good.accepted) in
      let target = resolve_download_target w r path d in
      rw (good.answers, soft, ok)
        (after_save-good r last (save_content w j target last.files r.body) rest
          (save_content-good target last.files r.body))

  after_pause-IsDone :
      (b k : ℕ) (last : Last) (r : Report)
      → IsDone b r
      → IsDone (suc b) (after_pause last (pause w d k) r)
  after_pause-IsDone b k last r (e, n) = rw (pause-none k) (e, omega arith)

  -- The rounds up to the good one are left.
  attempts-IsDone :
      (m k t : ℕ) (last : Last) → k + t ≡ j → t < m → IsDone (suc t) (attempts w d path m k last)
  unfolding attempts
  attempts-IsDone zero k t last e h = absurd (omega arith)
  attempts-IsDone (suc m) k zero last e h =
      let here : k ≡ j = omega arith in
      let rest = attempts w d path m (suc k) in
      let done : IsDone 0 (after_request w d path k (w.request k) last rest) =
        subst (λ i. IsDone 0 (after_request w d path i (w.request i) last rest)) (sym here)
          (after_request-good last rest) in
      after_pause-IsDone 0 k last _ done
  attempts-IsDone (suc m) k (suc t) last e h = after_pause-IsDone (suc t) k last _ (
      after_request-IsDone (suc t) k (w.request k) last _ refl
        (λ l. attempts-IsDone m (suc k) t l (omega arith) (omega arith)))

-- When attempt j, which is below the number of attempts that are allowed and counted from 0, gets a
-- response below 400 that it can write, no attempt gets a status from 400 to 499, and the context does
-- not end, the download reports no error and takes at most j + 1 requests.
pub execute_download-IsGoodAt :
    (w : World) (d : Downloader) (path : Text) (files : Files) (j : ℕ)
    → IsGoodAt w j
    → j < resolve_max_download_attempts d
    → ((execute_download w d path files).error ≡ none)
      × ((execute_download w d path files).requests ≤ j + 1)
unfolding execute_download
execute_download-IsGoodAt w d path files j good h =
    let done =
      attempts-IsDone w d path j good (resolve_max_download_attempts d) 0 j
        (record { resp = none; error = none; files = files }) (omega arith) h in
    (done.0, omega (arith, done.1))
