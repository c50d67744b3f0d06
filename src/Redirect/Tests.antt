-- ===== src/Redirect/Tests.antt =====
-- fast/redirect.go: the theorems at one input.
use aoni.Base.{ℕ, refl, false, [], none, some}
use aoni.Base.Text.{Text, bytes}
use aoni.Redirect.{authorization, set_header, Uri, Request, Response, World, redirect, prepare}
use aoni.Redirect.Scrubbed.{IsScrubbed, redirect-scrubs}

abbrev site : Text → Uri
site name = record {
  scheme = bytes "https";
  host_name = name;
  username = [];
  password = [];
  target = bytes "/";
}

abbrev moved : Response
moved = record { status_code = 302; location = bytes "b.com" }

-- Each location is the name of a host; a jar is none.
abbrev web : World ℕ
web = record {
  update = λ u location. site location;
  full_uri = λ u. u.host_name;
  parse_user = λ u. none;
  format_basic = λ user pass. user;
  is_same_domain_or_subdomain = λ s t. false;
  cookie_header = λ jar u. bytes "a=1";
  capture = λ jar req resp. jar;
  execute = λ n req. some moved;
}

abbrev secret_request : Request
secret_request = record {
  method = bytes "POST";
  uri = site (bytes "a.com");
  headers = set_header authorization (bytes "Bearer x") (λ n. []);
  body = bytes "x";
}

redirect-scrubs_example :
    IsScrubbed (prepare web 0 (redirect web (site (bytes "a.com")) moved secret_request)).headers
redirect-scrubs_example =
    redirect-scrubs web 0 (site (bytes "a.com")) moved secret_request refl refl
