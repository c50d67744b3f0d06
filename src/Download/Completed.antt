-- ===== src/Download/Completed.antt =====
-- internal/download/download.go: a download that reports no error is on the disk, and one good attempt
-- is enough.
use aoni.Base.{
  ℕ, zero, suc, ◌<◌, ◌≡◌, ◌≢◌, refl, ap, ◌⊎◌, inl, inr, true, Option, none, some, arith, leb,
  Bool-cases,
}
use aoni.Base.Text.{Text, is_empty, text_eq_refl}
use aoni.Download.{
  Error, Response, Downloader, World, Files, resolve_max_download_attempts,
  is_retryable_download_status, resolve_download_target, write, save_content,
  save_response_body_to_file, Report, Last, after_save, after_request, with_request, pause,
  after_pause, attempts, execute_download,
}

-- The file holds the whole body; there is none for an empty name or a nil body.
pub data Saved (files : Files) (target : Text) (body : Option Text) : Type 0 where
  no_file : is_empty target ≡ true → Saved files target body
  no_body : body ≡ none → Saved files target body
  whole :
      (content : Text) → body ≡ some content → files target ≡ some content → Saved files target body

pub record IsCompleted (w : World) (d : Downloader) (path : Text) (r : Report) : Type 0 where
  pub response : Response
  pub returned : r.resp ≡ some response
  pub accepted : response.status_code < 400
  pub saved : Saved r.files (resolve_download_target w response path d) response.body

module _ (w : World)
    (copies : (k : ℕ) (t : Text) → (w.copy k t).1 ≡ none → (w.copy k t).0 ≡ t) where
  write-Saved :
      (k : ℕ) (target body : Text) (files : Files) (made created : Option Error)
      → (write w k target body files made created).0 ≡ none
      → Saved (write w k target body files made created).1 target (some body)
  write-Saved k target body files (some e) created h = absurd (cc h)
  write-Saved k target body files none (some e) h = absurd (cc h)
  write-Saved k target body files none none h =
      whole body refl (rw (text_eq_refl target) (ap some (copies k body h)))

  save_content-Saved :
      (k : ℕ) (target : Text) (files : Files) (body : Option Text)
      → (save_content w k target files body).0 ≡ none
      → Saved (save_content w k target files body).1 target body
  save_content-Saved k target files none h = no_body refl
  save_content-Saved k target files (some body) h = elim (Bool-cases (is_empty target)) [
    | inl q ↦ no_file q
    | inr q ↦
        let made = w.make_directory k (w.directory target) in
        let created = w.create k target in
        rw q (write-Saved k target body files made created (rw q at h))
  ]

  module _ (d : Downloader) (path : Text) where
    -- A loop that ends without an error is completed, if it begins with one.
    Ends : (Last → Report) → Type 0
    Ends rest =
        (last : Last)
        → last.error ≢ none
        → (rest last).error ≡ none
        → IsCompleted w d path (rest last)

    after_save-Ends :
        (r : Response) (last : Last) (s : Option Error × Files) (rest : Last → Report)
        → r.status_code < 400
        → Ends rest
        → (s.0 ≡ none → Saved s.1 (resolve_download_target w r path d) r.body)
        → (after_save r last s rest).error ≡ none
        → IsCompleted w d path (after_save r last s rest)
    unfolding Ends
    after_save-Ends r last (none, files) rest ok ends saves h = record {
      response = r;
      returned = refl;
      accepted = ok;
      saved = saves refl;
    }
    after_save-Ends r last (some e, files) rest ok ends saves h =
        ends (record last { error = some e; files = files }) (λ q. absurd (cc q)) h

    after_request-Ends :
        (k : ℕ) (x : Response ⊎ Error) (last : Last) (rest : Last → Report)
        → Ends rest
        → (after_request w d path k x last rest).error ≡ none
        → IsCompleted w d path (after_request w d path k x last rest)
    unfolding Ends save_response_body_to_file
    after_request-Ends k (inr e) last rest ends h =
        ends (record last { error = some e }) (λ q. absurd (cc q)) h
    after_request-Ends k (inl r) last rest ends h =
        elim (Bool-cases (is_retryable_download_status r.status_code)) [
          | inl q ↦ rw q (ends _ (λ z. absurd (cc z)) (rw q at h))
          | inr q ↦ elim (Bool-cases (leb 400 r.status_code)) [
            | inl u ↦ absurd (cc (rw (q, u) at h))
            | inr u ↦
                let target = resolve_download_target w r path d in
                rw (q, u)
                  (after_save-Ends r last (save_content w k target last.files r.body) rest
                    (ground arith) ends (save_content-Saved k target last.files r.body)
                    (rw (q, u) at h))
          ]
        ]

    with_request-IsCompleted :
        (r : Report) → IsCompleted w d path r → IsCompleted w d path (with_request r)
    with_request-IsCompleted r c = record {
      response = c.response;
      returned = c.returned;
      accepted = c.accepted;
      saved = c.saved;
    }

    after_pause-Ends :
        (last : Last) (o : Option Error) (r : Report)
        → (r.error ≡ none → IsCompleted w d path r)
        → (after_pause last o r).error ≡ none
        → IsCompleted w d path (after_pause last o r)
    after_pause-Ends last (some e) r c h = absurd (cc h)
    after_pause-Ends last none r c h = with_request-IsCompleted r (c h)

    attempts-Ends : (n k : ℕ) → Ends (attempts w d path n k)
    unfolding attempts Ends
    attempts-Ends zero k last some_error h = absurd (some_error h)
    attempts-Ends (suc n) k last some_error h =
        after_pause-Ends last (pause w d k) _
          (after_request-Ends k (w.request k) last _ (attempts-Ends n (suc k))) h

    attempts-first :
        (n k : ℕ) (last : Last)
        → 0 < n
        → (attempts w d path n k last).error ≡ none
        → IsCompleted w d path (attempts w d path n k last)
    unfolding attempts
    attempts-first zero k last some_round h = absurd (omega arith)
    attempts-first (suc n) k last some_round h =
        after_pause-Ends last (pause w d k) _
          (after_request-Ends k (w.request k) last _ (attempts-Ends n (suc k))) h

resolve_max_download_attempts-pos : (d : Downloader) → 0 < resolve_max_download_attempts d
unfolding resolve_max_download_attempts
resolve_max_download_attempts-pos d = ground arith

-- A download that reports no error has a response with a status below 400, and the file to which that
-- response leads holds its whole body, unless no file is asked for or the body is nil. io.Copy without
-- an error is taken to have written all of the body.
pub execute_download-IsCompleted :
    (w : World) (d : Downloader) (path : Text) (files : Files)
    → ((k : ℕ) (t : Text) → (w.copy k t).1 ≡ none → (w.copy k t).0 ≡ t)
    → (execute_download w d path files).error ≡ none
    → IsCompleted w d path (execute_download w d path files)
unfolding execute_download
execute_download-IsCompleted w d path files copies h =
    attempts-first w copies d path (resolve_max_download_attempts d) 0 _
      (resolve_max_download_attempts-pos d) h
