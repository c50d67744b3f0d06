-- ===== src/Redirect.antt =====
-- fast/redirect.go and fast/cookies.go: which requests follow a redirect, and what they carry.
pub mod Scrubbed
mod Tests
use aoni.Base.{
  ℕ, zero, suc, ◌+◌, ◌==◌, Bool, true, false, not, ◌&&◌, ◌||◌, List, [], ◌∷◌, ◌++◌, Option, none,
  some, if◌then◌else◌,
}
use aoni.Base.Int.{ℤ, pos, negsuc}
use aoni.Base.Text.{Text, bytes, text_eq, is_empty, to_lower}

-- The names of headers that the code deals with, by their constants, and the others by a number.
pub data Name : Type 0 where
  authorization proxy_authorization proxy_authenticate www_authenticate cookie2 x_api_key : Name
  x_auth_token x_access_token x_secret x_client_secret api_key token secret private_key : Name
  cookie referer host : Name
  content_type content_length content_encoding content_language content_location digest : Name
  named : ℕ → Name

abbrev index : Name → ℕ
index authorization = 0
index proxy_authorization = 1
index proxy_authenticate = 2
index www_authenticate = 3
index cookie2 = 4
index x_api_key = 5
index x_auth_token = 6
index x_access_token = 7
index x_secret = 8
index x_client_secret = 9
index api_key = 10
index token = 11
index secret = 12
index private_key = 13
index cookie = 14
index referer = 15
index host = 16
index content_type = 17
index content_length = 18
index content_encoding = 19
index content_language = 20
index content_location = 21
index digest = 22
index (named k) = 23 + k

-- A header that is not there is empty, as Peek says.
abbrev pub Headers : Type 0
Headers = Name → Text

abbrev pub set_header : Name → Text → Headers → Headers
set_header n v h m = if index n == index m then v else h m

abbrev pub del_header : Name → Headers → Headers
del_header n h = set_header n [] h

abbrev pub del_headers : List Name → Headers → Headers
del_headers [] h = h
del_headers (n ∷ ns) h = del_headers ns (del_header n h)

abbrev pub sensitive_redirect_headers : List Name
sensitive_redirect_headers =
    authorization ∷ proxy_authorization ∷ proxy_authenticate ∷ www_authenticate ∷ cookie2
    ∷ x_api_key ∷ x_auth_token ∷ x_access_token ∷ x_secret ∷ x_client_secret ∷ api_key ∷ token
    ∷ secret ∷ private_key ∷ []

abbrev pub representation_headers : List Name
representation_headers =
    content_type ∷ content_length ∷ content_encoding ∷ content_language ∷ content_location ∷ digest
    ∷ []

-- target is the path with the query.
pub record Uri : Type 0 where
  pub scheme : Text
  pub host_name : Text
  pub username : Text
  pub password : Text
  pub target : Text

pub record Request : Type 0 where
  pub method : Text
  pub uri : Uri
  pub headers : Headers
  pub body : Text

pub record Response : Type 0 where
  pub status_code : ℕ
  pub location : Text

-- What is outside: the updating and writing of a URI (mach), url.Parse for a host with an @ in it,
-- the Authorization of a user, CleanHost and IsSameDomainOrSubdomain, the header that the jar J gives for
-- a URI, what it keeps of a response, and the answer to the n-th request, none being an error.
pub record World (J : Type 0) : Type 0 where
  pub update : Uri → Text → Uri
  pub full_uri : Uri → Text
  pub parse_user : Uri → Option (Text × Text)
  pub format_basic : Text → Text → Text
  pub is_same_domain_or_subdomain : Text → Text → Bool
  pub cookie_header : J → Uri → Text
  pub capture : J → Request → Response → J
  pub execute : ℕ → Request → Option Response

abbrev pub is_redirect_status : ℕ → Bool
is_redirect_status code =
    (code == 301) || (code == 302) || (code == 303) || (code == 307) || (code == 308)

-- bytes.EqualFold, for ASCII.
abbrev equal_bytes : Text → Text → Bool
equal_bytes s t = text_eq (to_lower s) (to_lower t)

abbrev pub is_same_host : Uri → Uri → Bool
is_same_host u v = equal_bytes u.host_name v.host_name

abbrev pub is_https_downgrade : Uri → Uri → Bool
is_https_downgrade u v = equal_bytes u.scheme (bytes "https") && equal_bytes v.scheme (bytes "http")

abbrev pub apply_redirect_method_and_body : ℕ → Request → Request
apply_redirect_method_and_body code req =
    if ((code == 301) || (code == 302) || (code == 303))
      && not (text_eq req.method (bytes "GET"))
      && not (text_eq req.method (bytes "HEAD"))
    then record req {
      method = bytes "GET";
      body = [];
      headers = del_headers representation_headers req.headers;
    }
    else req

abbrev or_text : Text → Text → Text
or_text [] t = t
or_text (c ∷ s) t = c ∷ s

abbrev pub has_at : Text → Bool
has_at [] = false
has_at (c ∷ s) = (c == b'@') || has_at s

-- An Authorization that the URI gives.
abbrev pub no_user : Uri → Bool
no_user u = is_empty u.username && not (has_at u.host_name)

pub data Outcome : Type 0 where
  answered : Response → Outcome
  execute_failed max_redirects_exceeded : Outcome

-- The requests that were sent, in their order.
pub record Run : Type 0 where
  pub sent : List Request
  pub outcome : Outcome

abbrev pub stop : Request → Outcome → Run
stop req o = record { sent = req ∷ []; outcome = o }

-- What is done after a response; go follows the redirect, if one more may be followed.
abbrev pub after_response : Request → Option Response → (Response → Run) → Run
after_response sent none go = stop sent execute_failed
after_response sent (some resp) go =
    if is_redirect_status resp.status_code && not (is_empty resp.location)
    then go resp
    else stop sent (answered resp)

abbrev pub cons_sent : Request → Run → Run
cons_sent sent r = record r { sent = sent ∷ r.sent }

abbrev answered_or_failed : Option Response → Outcome
answered_or_failed none = execute_failed
answered_or_failed (some resp) = answered resp

abbrev pub redirect_limit : ℤ → ℕ
redirect_limit (negsuc n) = 10
redirect_limit (pos n) = n

module _ {J : Type 0} (w : World J) where
  abbrev pub next_uri : Uri → Text → Uri
  next_uri current location =
      let u = w.update current location in
      record u {
        scheme = or_text u.scheme current.scheme;
        host_name = or_text u.host_name current.host_name;
      }

  unfoldable pub scrub_sensitive_headers : Uri → Uri → Headers → Headers
  scrub_sensitive_headers current next h =
      let scrubbed = del_headers sensitive_redirect_headers h in
      if w.is_same_domain_or_subdomain current.host_name next.host_name
      then scrubbed
      else del_header cookie scrubbed

  abbrev pub with_host : Uri → Headers → Headers
  with_host u h = if is_empty u.host_name then h else set_header host u.host_name h

  abbrev pub with_referer : Uri → Uri → Headers → Headers
  with_referer current next h =
      if is_https_downgrade current next
      then del_header referer h
      else set_header referer (w.full_uri current) h

  -- The headers of the request that follows.
  abbrev pub redirect_headers : Uri → Uri → Headers → Headers
  redirect_headers current next h = with_referer current next (
      if is_same_host current next
      then with_host next h
      else scrub_sensitive_headers current next (with_host next h))

  -- The request that follows; current is the URI as it was before the user's name was taken from it.
  unfoldable pub redirect : Uri → Response → Request → Request
  redirect current resp req =
      let r = apply_redirect_method_and_body resp.status_code req in
      let next = next_uri current resp.location in
      record r { uri = next; headers = redirect_headers current next r.headers }

  abbrev pub joined_cookies : Text → Text → Text
  joined_cookies [] new = new
  joined_cookies (c ∷ old) new = (c ∷ old) ++ (b';' ∷ b' ' ∷ new)

  unfoldable pub apply_cookies : J → Request → Request
  apply_cookies jar req =
      let new = w.cookie_header jar req.uri in
      if is_empty new then req else record req {
        headers = set_header cookie (joined_cookies (req.headers cookie) new) req.headers;
      }

  abbrev without_user : Request → Request
  without_user req = record req { uri = record req.uri { username = []; password = [] } }

  abbrev with_user : Text → Text → Request → Request
  with_user user pass req = record (without_user req) {
    headers = set_header authorization (w.format_basic user pass) req.headers;
  }

  abbrev with_parsed_user : Option (Text × Text) → Request → Request
  with_parsed_user none req = without_user req
  with_parsed_user (some (user, pass)) req = with_user user pass req

  unfoldable pub extract_user_info_and_set_auth : Request → Request
  extract_user_info_and_set_auth req =
      if not (is_empty (req.headers authorization))
      then req
      else if not (is_empty req.uri.username)
      then with_user req.uri.username req.uri.password req
      else if not (has_at req.uri.host_name)
      then req
      else with_parsed_user (w.parse_user req.uri) req

  -- The request as it is sent.
  abbrev pub prepare : J → Request → Request
  prepare jar req = extract_user_info_and_set_auth (apply_cookies jar req)

  -- The loop, with the number of redirects that may still be followed, and of requests sent.
  unfoldable pub follow : ℕ → ℕ → J → Request → Run
  follow zero n jar req =
      let sent = prepare jar req in
      after_response sent (w.execute n sent) (λ resp. stop sent max_redirects_exceeded)
  follow (suc left) n jar req =
      let sent = prepare jar req in
      after_response sent (w.execute n sent) (λ resp. cons_sent sent (
        follow left (n + 1) (w.capture jar sent resp)
          (redirect (apply_cookies jar req).uri resp sent)))

  abbrev with_limit : ℕ → J → Request → Run
  with_limit zero jar req =
      stop (prepare jar req) (answered_or_failed (w.execute 0 (prepare jar req)))
  with_limit (suc limit) jar req = follow (suc limit) 0 jar req

  unfoldable pub execute_with_redirects : ℤ → J → Request → Run
  execute_with_redirects limit jar req = with_limit (redirect_limit limit) jar req
