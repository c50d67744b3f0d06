-- ===== src/Referer.antt =====
-- pipeline/referer.go: the Referer header of a request, computed from the last completed one.
pub mod Policy
mod Tests
use aoni.Base.{
  ℕ, zero, suc, ◌+◌, ◌-◌, Bool, true, false, ◌&&◌, ◌||◌, List, [], ◌∷◌, ◌++◌, Option, none, some,
  leb, if◌then◌else◌, length, take, drop,
}
use aoni.Base.Text.{Text, bytes, text_eq}

pub data RefererPolicy : Type 0 where
  strict_origin_when_cross_origin : RefererPolicy
  no_referer_when_downgrade : RefererPolicy
  no_referer : RefererPolicy
  unsafe_url : RefererPolicy

-- What referer.go reads of a url.URL: its scheme, its host and what String returns.
pub record Url : Type 0 where
  pub scheme : Text
  pub host : Text
  pub string : Text

-- RefererAutomaton with its guarded refererState.
pub record RefererState : Type 0 where
  pub last_url : Option Url
  pub policy : RefererPolicy

unfoldable pub new_referer_automaton : RefererPolicy → RefererState
new_referer_automaton policy = record { last_url = none; policy = policy }

abbrev pub is_policy : RefererPolicy → RefererPolicy → Bool
is_policy strict_origin_when_cross_origin strict_origin_when_cross_origin = true
is_policy no_referer_when_downgrade no_referer_when_downgrade = true
is_policy no_referer no_referer = true
is_policy unsafe_url unsafe_url = true
is_policy _ _ = false

-- copy(buf[n:], s): bytes beyond the end of the buffer are not written.
unfoldable pub copy : Text → ℕ → Text → Text
copy buf n s = take n buf ++ (take (length buf - n) s ++ drop (n + length s) buf)

abbrev zeros : ℕ → Text
zeros zero = []
zeros (suc n) = 0 ∷ zeros n

abbrev pub buffer : Text
buffer = zeros 128

-- The origin as the code spells it: through the array when it fits, by concatenation otherwise.
abbrev pub through_buffer : Text → Text → Text
through_buffer scheme host =
    let n = length scheme in
    let at_host = copy (copy buffer 0 scheme) n (bytes "://") in
    let at_slash = copy at_host (n + 3) host in
    take (n + 4 + length host) (copy at_slash (n + 3 + length host) (bytes "/"))

unfoldable pub origin_of : Text → Text → Text
origin_of scheme host =
    if leb (length scheme + 4 + length host) 128
    then through_buffer scheme host
    else scheme ++ (bytes "://" ++ (host ++ bytes "/"))

-- equal_fold is strings.EqualFold.
abbrev pub same_origin : (Text → Text → Bool) → Url → Url → Bool
same_origin equal_fold a b = equal_fold a.scheme b.scheme && equal_fold a.host b.host

abbrev pub is_downgrade : Url → Url → Bool
is_downgrade last target =
    text_eq last.scheme (bytes "https") && text_eq target.scheme (bytes "http")

unfoldable pub compute_referer : (Text → Text → Bool) → RefererState → Option Url → Text
compute_referer equal_fold a none = []
compute_referer equal_fold a (some target) = elim a.last_url [
  | none ↦ []
  | some last ↦
      if is_policy a.policy no_referer
      then []
      else if is_downgrade last target
          && (is_policy a.policy no_referer_when_downgrade
              || is_policy a.policy strict_origin_when_cross_origin)
      then []
      else if is_policy a.policy unsafe_url
      then last.string
      else if same_origin equal_fold last target
      then last.string
      else if is_policy a.policy strict_origin_when_cross_origin
      then origin_of last.scheme last.host
      else last.string
]

unfoldable pub update_last_url : Option Url → RefererState → RefererState
update_last_url none a = a
update_last_url (some u) a = record a { last_url = some u }
