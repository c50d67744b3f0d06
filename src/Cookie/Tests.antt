-- ===== src/Cookie/Tests.antt =====
-- Runs and instances for cookies.
use aoni.Base.{ℕ, ◌≡◌, refl, Bool, true, false, List, [], ◌∷◌, Option, none, All}
use aoni.Base.Int.{pos, negsuc}
use aoni.Base.Text.{Text, bytes}
use aoni.Base.Sample.{library}
use aoni.Base.Strconv.{atoi}
use aoni.Cookie.Rules.{
  no_cookie, path_match, domain_match, parse_cookie_attribute, parse_attributes,
  parse_set_cookie_header,
}
use aoni.Cookie.Jar.{
  StdCookie, unset, strict, Store, Request, delete, from_std, to_std, insert_sorted,
  sort_for_browser, set_cookie, set_each, set_cookies, is_sent, valid_cookies, cookies,
  is_expired_cookie, purge_expired_cookies,
}
use aoni.Cookie.Jar.Origin.{Event, sets, reads, after, Traced, cookies-Traced}

abbrev no_ip : Text → Bool
no_ip s = false

jar_tests : Unit {0}
unfolding path_match domain_match set_cookies set_each set_cookie cookies valid_cookies is_sent
    delete from_std to_std purge_expired_cookies sort_for_browser insert_sorted is_expired_cookie
jar_tests = tt

path_runs :
    (path_match (bytes "/a/b") (bytes "/a") ≡ true)
    × (path_match (bytes "/ab") (bytes "/a") ≡ false)
    × (domain_match no_ip (bytes "a.Example.com") (bytes "example.com") ≡ true)
    × (domain_match no_ip (bytes "badexample.com") (bytes "example.com") ≡ false)
unfolding path_match domain_match
path_runs = (refl, refl, refl, refl)

abbrev no_time : Text → Option ℕ
no_time s = none

abbrev pairs : Text → List (Text × Text)
pairs s = (bytes "id", bytes "7") ∷ (bytes "Max-Age", bytes "99999999") ∷ (bytes "secure", []) ∷ []

abbrev header : Text
header = bytes "id=7; Max-Age=99999999; secure"

parsed :
    parse_set_cookie_header library no_time pairs header (bytes "h") (bytes "/")
    ≡ record no_cookie {
      name = bytes "id";
      value = bytes "7";
      domain = bytes "h";
      path = bytes "/";
      secure = true;
      max_age = pos 34560000;
    }
unfolding parse_set_cookie_header parse_attributes parse_cookie_attribute atoi
parsed = refl

abbrev request : Text → Request
request host = record {
  partition = bytes "p";
  host = host;
  path = bytes "/a/b";
  is_secure = true;
  now = 100;
}

abbrev session : StdCookie
session = record {
  name = bytes "sid";
  value = bytes "1";
  domain = [];
  path = bytes "/a";
  expires = none;
  http_only = true;
  secure = true;
  same_site = strict;
  partitioned = true;
  max_age = pos 60;
}

abbrev history : List Event
history =
    reads (request (bytes "example.com")) ∷ sets (request (bytes "example.com")) (session ∷ []) ∷ []

-- The cookie comes back without its SameSite policy and its Partitioned flag.
abbrev returned : StdCookie
returned = record session { domain = bytes "example.com"; same_site = unset; partitioned = false }

sent_to_subdomain :
    (cookies library no_ip none
      (request (bytes "www.example.com"))
      (set_cookies library no_ip none (request (bytes "example.com")) (session ∷ []) [])).0
    ≡ returned ∷ []
unfolding jar_tests
sent_to_subdomain = refl

cookies-Traced_example :
    All
      (Traced library no_ip none (request (bytes "www.example.com")) history)
      (cookies library no_ip none
        (request (bytes "www.example.com"))
        (after library no_ip none history)).0
cookies-Traced_example =
    cookies-Traced library no_ip none history (request (bytes "www.example.com"))

abbrev held : Store
unfolding jar_tests
held = set_cookies library no_ip none (request (bytes "example.com")) (session ∷ []) []

abbrev removal : StdCookie
removal = record session { max_age = negsuc 0 }
