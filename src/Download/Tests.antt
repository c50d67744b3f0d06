-- ===== src/Download/Tests.antt =====
-- Runs and instances for the downloader.
use aoni.Base.{
  ℕ, ◌+◌, ◌≤◌, ◌<◌, ◌==◌, ◌≡◌, refl, inl, inr, none, some, arith, if◌then◌else◌, ◌⊎◌, Bool-cases,
  [],
}
use aoni.Base.Text.{bytes}
use aoni.Download.{
  Error, cause, Response, Downloader, World, Files, resolve_max_download_attempts,
  calculate_download_backoff, is_retryable_download_status, sleep_with_context,
  resolve_download_target, save_response_body_to_file, attempts, execute_download,
}
use aoni.Download.Completed.{IsCompleted, execute_download-IsCompleted}
use aoni.Download.Recovered.{IsGoodAt, execute_download-IsGoodAt}

abbrev page : Response
page = record { status_code = 200; filename = []; body = some (bytes "page") }

-- The first attempt fails, the second one meets a 503.
abbrev reply : ℕ → Response ⊎ Error
reply k =
    if k == 0
    then inr (cause 1)
    else if k == 1
    then inl (record page { status_code = 503 })
    else inl page

abbrev world : World
world = record {
  wait = λ k d. none;
  request = reply;
  make_directory = λ k p. none;
  create = λ k p. none;
  copy = λ k t. (t, none);
  url_path = λ t. none;
  base = λ t. t;
  directory = λ t. t;
  join = λ a b. b;
}

abbrev to_file : Downloader
to_file = record { output_file = bytes "out"; output_directory = []; retry_override = none }

abbrev empty_disk : Files
empty_disk p = none

statuses : (k : ℕ) (r : Response) → reply k ≡ inl r → (r.status_code < 400) ⊎ (500 ≤ r.status_code)
statuses k r h = elim (Bool-cases (k == 0)) [
  | inl e ↦ absurd (ground arith)
  | inr e ↦ elim (Bool-cases (k == 1)) [ inl f ↦ inr (ground arith) | inr f ↦ inl (ground arith) ]
]

third-IsGoodAt : IsGoodAt world 2
third-IsGoodAt = record {
  no_end = λ k d. refl;
  no_refusal = statuses;
  response = page;
  answers = refl;
  accepted = omega arith;
  made = λ p. refl;
  created = λ p. refl;
  copied = λ t. refl;
}

execute_download-IsGoodAt_example :
    ((execute_download world to_file (bytes "/p") empty_disk).error ≡ none)
    × ((execute_download world to_file (bytes "/p") empty_disk).requests ≤ 2 + 1)
unfolding resolve_max_download_attempts
execute_download-IsGoodAt_example =
    execute_download-IsGoodAt world to_file (bytes "/p") empty_disk 2 third-IsGoodAt (omega arith)

execute_download-IsCompleted_example :
    IsCompleted world to_file (bytes "/p") (execute_download world to_file (bytes "/p") empty_disk)
unfolding execute_download attempts resolve_max_download_attempts calculate_download_backoff
    sleep_with_context is_retryable_download_status resolve_download_target
    save_response_body_to_file
execute_download-IsCompleted_example =
    execute_download-IsCompleted world to_file (bytes "/p") empty_disk (λ k t h. refl) refl
