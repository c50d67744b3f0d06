-- ===== src/Circuit/Tests.antt =====
-- Runs and instances for the circuit breakers.
use aoni.Base.{
  ℕ, zero, suc, ◌+◌, ◌≡◌, refl, Bool, true, false, List, [], ◌∷◌, Option, none, some, leb,
  if◌then◌else◌, inl, inr, Bool-cases,
}
use aoni.Base.Int.{pos, negsuc}
use aoni.Base.Text.{Text, bytes, text_eq, text_eq_refl, eq_of_text_eq}
use aoni.Circuit.{
  Error, circuit_open, open_for, other, Library, IsMap, IsBreaker, verdict, Call, Result,
  CircuitBreaker, new_circuit_breaker, get_breaker, parse_host_from_url, is_open, conclude, guarded,
  circuit_break, circuit_break_all,
}
use aoni.Circuit.Isolation.{calls_to, results_of, circuit_break_all-isolates}
use aoni.Circuit.Answers.{circuit_break-answers}

abbrev is_busy : Error → Bool
is_busy (other n) = leb n 0
is_busy _ = false

abbrev counted : Option Error → ℕ → ℕ
counted none b = 0
counted (some e) b = b + 1

-- A breaker counts failures, and is open from the second one on.
abbrev library : Library
library = record {
  Float = ℕ;
  half = 50;
  is_share = λ n. leb 1 n;
  Breaker = ℕ;
  new_breaker = λ t n c w. 0;
  enter = λ now b. (if leb 2 b then some (other 0) else none, b);
  leave = λ now err b. (err, counted err b);
  Registry = Text → Option ℕ;
  no_breakers = λ h. none;
  load = λ h r. r h;
  put = λ h b r g. if text_eq g h then some b else r g;
  is_err_open = is_busy;
  wraps_circuit_open = λ n. false;
  text = λ n. bytes "refused";
  url_host = λ raw. some raw;
  split_host_port = λ h. none;
}

library-IsMap : IsMap library
library-IsMap = record {
  load-put = λ h b r. rw (text_eq_refl h) refl;
  load-put_ne = λ g h b r away. elim (Bool-cases (text_eq g h)) [
    | inl e ↦ absurd (away (eq_of_text_eq g h e))
    | inr e ↦ rw e refl
  ];
}

refused :
    (full : Bool) (e : Error) → (if full then some (other 0) else none) ≡ some e → is_busy e ≡ true
refused true circuit_open h = cc
refused true (open_for g) h = cc
refused true (other zero) h = refl
refused true (other (suc n)) h = cc
refused false e h = cc

library-enter : (b : ℕ) (e : Error) → (library.enter 0 b).0 ≡ some e → is_busy e ≡ true
library-enter b e h = refused (leb 2 b) e h

library-IsBreaker : IsBreaker library
library-IsBreaker = record {
  enter-open = λ now b e h. library-enter b e h;
  distinct = refl;
  leave-same = λ now err b. refl;
}

abbrev fresh : CircuitBreaker library
unfolding new_circuit_breaker
fresh =
    new_circuit_breaker library
      (record { failure_threshold = 0; min_requests = pos 0; cooldown = negsuc 0; window = pos 7 })

abbrev failing : Text → Call
failing url = record { url = url; entered_at = 1; left_at = 2; answer = (none, some (other 3)) }

abbrev working : Text → Call
working url = record {
  url = url;
  entered_at = 1;
  left_at = 2;
  answer = (some (record { id = 1; status_code = 200 }), none);
}

-- The host a fails until its breaker opens; b goes on.
abbrev mixed : List Call
mixed =
    failing (bytes "a")
    ∷ working (bytes "b")
    ∷ failing (bytes "a")
    ∷ failing (bytes "a")
    ∷ working (bytes "b")
    ∷ []

abbrev was_called : List Result → List Bool
was_called [] = []
was_called (r ∷ rs) = r.called ∷ was_called rs

opens :
    was_called (circuit_break_all library none mixed fresh) ≡ true ∷ true ∷ true ∷ false ∷ true ∷ []
unfolding circuit_break_all circuit_break get_breaker guarded verdict new_circuit_breaker
    parse_host_from_url
opens = refl

-- A condition that takes no error for a failure: the error of the client is lost.
lost :
    (circuit_break library (some (λ a. false)) (failing (bytes "a")) fresh).0.answer ≡ (none, none)
unfolding circuit_break get_breaker guarded verdict conclude new_circuit_breaker parse_host_from_url
lost = refl

circuit_break_all-isolates_example :
    results_of (bytes "b") (circuit_break_all library none mixed fresh)
    ≡ circuit_break_all library none (calls_to library (bytes "b") mixed) fresh
circuit_break_all-isolates_example =
    circuit_break_all-isolates library none library-IsMap (bytes "b") mixed fresh

circuit_break-answers_example :
    (circuit_break library none (failing (bytes "a")) fresh).0.answer ≡ (
      if (circuit_break library none (failing (bytes "a")) fresh).0.called
      then (none, some (other 3))
      else (none, some (open_for (parse_host_from_url library (bytes "a")))))
unfolding is_open
circuit_break-answers_example =
    circuit_break-answers library none (failing (bytes "a")) fresh library-IsBreaker
      (λ resp e. refl) (refl, refl)
