-- ===== src/Cookie/Rules.antt =====
-- cookie/cookie.go: path and domain matching, prefix rules, and the parsing of Set-Cookie. Texts are
-- ASCII. net.ParseIP and http.ParseTime, and bytesconv.ScanPairs, are parameters.
pub mod Matching
pub mod Parsing
use mathlib.Core.List.{reverse}
use aoni.Base.{
  ℕ, zero, suc, ◌+◌, ◌-◌, ◌*◌, ◌^◌, Bool, true, false, not, ◌&&◌, ◌||◌, List, [], ◌∷◌, ◌++◌, Option,
  none, some, ltb, leb, ◌==◌, if◌then◌else◌, length, get_elem?, any,
}
use aoni.Base.Int.{ℤ, pos, negsuc}
use aoni.Base.Strconv.{atoi}
use aoni.Base.Text.{Text, bytes, text_eq, is_empty, has_prefix, has_suffix, to_lower}
use aoni.Base.Foundation.{Foundation}

-- The cookie of the jar; a zero time is `none`.
pub record Cookie : Type 0 where
  pub expires : Option ℕ
  pub name : Text
  pub value : Text
  pub domain : Text
  pub path : Text
  pub same_site : Text
  pub partition_key : Text
  pub http_only : Bool
  pub secure : Bool
  pub partitioned : Bool
  pub max_age : ℤ

abbrev pub no_cookie : Cookie
no_cookie = record {
  expires = none;
  name = [];
  value = [];
  domain = [];
  path = [];
  same_site = [];
  partition_key = [];
  http_only = false;
  secure = false;
  partitioned = false;
  max_age = pos 0;
}

abbrev pub max_cookie_age_seconds : ℕ
max_cookie_age_seconds = 34560000

abbrev is_prohibited : ℕ → Bool
is_prohibited b = leb b 0x08 || ((leb 0x0a b && leb b 0x1f) || (b == 0x7f))

unfoldable pub has_prohibited_control_chars : Text → Bool
has_prohibited_control_chars s = any is_prohibited s

abbrev pub byte_is : Option ℕ → ℕ → Bool
byte_is none c = false
byte_is (some b) c = b == c

abbrev pub or_root : Text → Text
or_root s = if is_empty s then bytes "/" else s

unfoldable pub path_match : Text → Text → Bool
path_match req_path cookie_path =
    let c = or_root cookie_path in
    let r = or_root req_path in
    text_eq r c
    || (has_prefix r c
        && (has_suffix c (bytes "/")
            || (ltb (length c) (length r) && byte_is (get_elem? r (length c)) b'/')))

-- The ASCII forms of strings.ToLower are exact on host names.
unfoldable pub domain_match : (Text → Bool) → Text → Text → Bool
domain_match parse_ip host cookie_domain =
    let h = to_lower host in
    let d = to_lower cookie_domain in
    text_eq h d
    || (not (parse_ip h)
        && (has_suffix h d
            && (ltb (length d) (length h) && byte_is (get_elem? h (length h - length d - 1)) b'.')))

unfoldable pub validate_prefix : Cookie → Bool
validate_prefix c =
    if is_empty c.name
    then not (
        has_prefix (to_lower c.value) (bytes "__secure-")
        || has_prefix (to_lower c.value) (bytes "__host-"))
    else if has_prefix (to_lower c.name) (bytes "__secure-")
    then c.secure
    else if has_prefix (to_lower c.name) (bytes "__host-")
    then c.secure && (text_eq c.path (bytes "/") && is_empty c.domain)
    else true

abbrev capped : ℤ → ℤ
capped (pos n) = pos (if ltb max_cookie_age_seconds n then max_cookie_age_seconds else n)
capped (negsuc n) = negsuc n

abbrev trim_dot : Text → Text
trim_dot [] = []
trim_dot (c ∷ s) = if c == b'.' then s else c ∷ s

module _ (lib : Foundation) (parse_time : Text → Option ℕ) where
  abbrev is_named : Text → Text → Bool
  is_named key word = lib.equal_fold key word

  abbrev pub site_name : Text → Text
  site_name val =
      if is_named val (bytes "strict")
      then bytes "Strict"
      else if is_named val (bytes "lax")
      then bytes "Lax"
      else if is_named val (bytes "none")
      then bytes "None"
      else bytes "Default"

  abbrev pub with_max_age : Option ℤ → Cookie → Cookie
  with_max_age none c = c
  with_max_age (some n) c = record c { max_age = capped n }

  abbrev pub with_expires : Option ℕ → Cookie → Cookie
  with_expires none c = c
  with_expires (some t) c = record c { expires = some t }

  unfoldable pub parse_cookie_attribute : Text → Text → Cookie → Cookie
  parse_cookie_attribute key val c =
      let has_val = not (is_empty val) in
      if ltb 1024 (length val)
      then c
      else if is_named key (bytes "httponly")
      then record c { http_only = true }
      else if is_named key (bytes "secure")
      then record c { secure = true }
      else if is_named key (bytes "partitioned")
      then record c { partitioned = true }
      else if is_named key (bytes "samesite")
      then (if has_val then record c { same_site = site_name val } else c)
      else if is_named key (bytes "domain")
      then (if has_val then record c { domain = trim_dot val } else c)
      else if is_named key (bytes "path")
      then (if has_val then record c { path = val } else c)
      else if is_named key (bytes "max-age")
      then (if has_val then with_max_age (atoi val) c else c)
      else if is_named key (bytes "expires")
      then (if has_val then with_expires (parse_time val) c else c)
      else c

  unfoldable pub parse_attributes : List (Text × Text) → Cookie → Cookie
  parse_attributes [] c = c
  parse_attributes ((key, val) ∷ pairs) c =
      parse_attributes pairs (parse_cookie_attribute key val c)

  -- The loop over the pairs: the first names the cookie.
  abbrev pub parse_pairs : List (Text × Text) → Cookie → Cookie
  parse_pairs [] c = c
  parse_pairs ((key, val) ∷ pairs) c = parse_attributes pairs (record c { name = key; value = val })

  abbrev pub checked : Cookie → Cookie
  checked c = if is_empty c.name || ltb 4096 (length c.name + length c.value) then no_cookie else c

  unfoldable pub parse_set_cookie_header : (Text → List (Text × Text)) → Text → Text → Text → Cookie
  unfolding has_prohibited_control_chars
  parse_set_cookie_header scan_pairs header_val default_domain default_path =
      if is_empty header_val || has_prohibited_control_chars header_val
      then no_cookie
      else checked (
          parse_pairs (scan_pairs header_val)
            (record no_cookie { domain = default_domain; path = default_path }))
