-- ===== src/Download.antt =====
-- internal/download/download.go: downloads to a file, with retries. What an attempt meets outside is a
-- function of its number; the files are a function from paths.
pub mod Completed
pub mod Recovered
mod Tests
use aoni.Base.{
  ℕ, zero, suc, ◌+◌, ◌*◌, ◌^◌, ◌%◌, ◌==◌, ◌⊎◌, [], inl, inr, Bool, true, false, not, ◌||◌, Option,
  none, some, ltb, leb, if◌then◌else◌,
}
use aoni.Base.Int.{ℤ, pos, to_int64, is_positive, pos_part}
use aoni.Base.Text.{Text, bytes, text_eq, is_empty}

-- cause is an error of what the downloader calls.
pub data Error : Type 0 where
  cause : ℕ → Error
  server_error download_failed : ℕ → Error

-- filename is what ExtractFilename finds in Content-Disposition, empty where there is none; body is
-- none for a nil body.
pub record Response : Type 0 where
  pub status_code : ℕ
  pub filename : Text
  pub body : Option Text

pub record RetryOverride : Type 0 where
  pub max_attempts : ℤ
  pub backoff : ℤ

pub record Downloader : Type 0 where
  pub output_file : Text
  pub output_directory : Text
  pub retry_override : Option RetryOverride

-- wait is the timer of the k-th attempt against the context, make_directory is os.MkdirAll but for the
-- error that the directory exists, and copy what io.Copy has written of a body, with its error.
-- url_path is the path of a text that is a URL with one, base, directory and join are those of path
-- and filepath.
pub record World : Type 0 where
  pub wait : ℕ → ℕ → Option Error
  pub request : ℕ → Response ⊎ Error
  pub make_directory : ℕ → Text → Option Error
  pub create : ℕ → Text → Option Error
  pub copy : ℕ → Text → Text × Option Error
  pub url_path : Text → Option Text
  pub base : Text → Text
  pub directory : Text → Text
  pub join : Text → Text → Text

abbrev pub Files : Type 0
Files = Text → Option Text

abbrev pub write_file : Text → Text → Files → Files
write_file path content files p = if text_eq p path then some content else files p

unfoldable pub resolve_max_download_attempts : Downloader → ℕ
resolve_max_download_attempts d = elim d.retry_override [
  | none ↦ 5
  | some o ↦ if is_positive o.max_attempts then pos_part o.max_attempts else 5
]

-- A time.Duration: the product is an int64 and wraps around.
unfoldable pub calculate_download_backoff : ℕ → Option RetryOverride → ℤ
calculate_download_backoff zero o = pos 0
calculate_download_backoff (suc k) none = to_int64 (2 ^ suc k * 100000000 % 2 ^ 64)
calculate_download_backoff (suc k) (some o) =
    if is_positive o.backoff
    then to_int64 (pos_part o.backoff * suc k % 2 ^ 64)
    else to_int64 (2 ^ suc k * 100000000 % 2 ^ 64)

unfoldable pub is_retryable_download_status : ℕ → Bool
is_retryable_download_status code = leb 500 code

unfoldable pub sleep_with_context : World → ℕ → ℤ → Option Error
sleep_with_context w k d = if is_positive d then w.wait k (pos_part d) else none

abbrev named_by_path : World → Text → Text
named_by_path w target =
    let name = w.base (elim (w.url_path target) [ none ↦ target | some p ↦ p ]) in
    if text_eq name (bytes ".") || (text_eq name (bytes "/") || is_empty name)
    then bytes "downloaded_file"
    else name

unfoldable pub resolve_download_target : World → Response → Text → Downloader → Text
resolve_download_target w resp path d =
    if not (is_empty d.output_file)
    then d.output_file
    else if is_empty d.output_directory
    then []
    else w.join d.output_directory
        (if is_empty resp.filename then named_by_path w path else resp.filename)

abbrev pub write :
    World → ℕ → Text → Text → Files → Option Error → Option Error → Option Error × Files
write w k target body files (some e) created = (some e, files)
write w k target body files none (some e) = (some e, files)
write w k target body files none none =
    ((w.copy k body).1, write_file target (w.copy k body).0 files)

abbrev pub save_content : World → ℕ → Text → Files → Option Text → Option Error × Files
save_content w k target files none = (none, files)
save_content w k target files (some body) =
    if is_empty target
    then (none, files)
    else write w k target body files (w.make_directory k (w.directory target)) (w.create k target)

unfoldable pub save_response_body_to_file :
    World → ℕ → Response → Text → Files → Option Error × Files
save_response_body_to_file w k resp target files = save_content w k target files resp.body

-- What Execute returns, the files as it leaves them and the number of its requests.
pub record Report : Type 0 where
  pub resp : Option Response
  pub error : Option Error
  pub files : Files
  pub requests : ℕ

-- The variables that the loop carries from one attempt to the next.
pub record Last : Type 0 where
  pub resp : Option Response
  pub error : Option Error
  pub files : Files

abbrev pub after_save : Response → Last → Option Error × Files → (Last → Report) → Report
after_save r last (none, files) rest = record {
  resp = some r;
  error = none;
  files = files;
  requests = 0;
}
after_save r last (some e, files) rest = rest (record last { error = some e; files = files })

abbrev pub after_request :
    World → Downloader → Text → ℕ → Response ⊎ Error → Last → (Last → Report) → Report
after_request w d path k (inr e) last rest = rest (record last { error = some e })
after_request w d path k (inl r) last rest =
    if is_retryable_download_status r.status_code
    then rest (record last { resp = some r; error = some (server_error r.status_code) })
    else if leb 400 r.status_code
    then record {
      resp = some r;
      error = some (download_failed r.status_code);
      files = last.files;
      requests = 0;
    }
    else after_save r last
        (save_response_body_to_file w k r (resolve_download_target w r path d) last.files) rest

abbrev pub with_request : Report → Report
with_request r = record r { requests = r.requests + 1 }

abbrev pub pause : World → Downloader → ℕ → Option Error
pause w d k =
    if ltb 0 k then sleep_with_context w k (calculate_download_backoff k d.retry_override) else none

abbrev pub after_pause : Last → Option Error → Report → Report
after_pause last (some e) r = record {
  resp = none;
  error = some e;
  files = last.files;
  requests = 0;
}
after_pause last none r = with_request r

-- The loop with the given number of attempts left; k is the number of the next one, from 0.
unfoldable pub attempts : World → Downloader → Text → ℕ → ℕ → Last → Report
attempts w d path zero k last = record {
  resp = last.resp;
  error = last.error;
  files = last.files;
  requests = 0;
}
attempts w d path (suc n) k last =
    let r = after_request w d path k (w.request k) last (attempts w d path n (suc k)) in
    after_pause last (pause w d k) r

-- Execute
unfoldable pub execute_download : World → Downloader → Text → Files → Report
execute_download w d path files =
    attempts w d path (resolve_max_download_attempts d) 0
      (record { resp = none; error = none; files = files })
