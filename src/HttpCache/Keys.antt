-- ===== src/HttpCache/Keys.antt =====
-- pipeline/cache.go: the keys of the cache, that is No-Vary-Search and Cookie-Indices.
use aoni.Base.{
  ℕ, ◌==◌, Bool, true, false, not, ◌&&◌, ◌||◌, List, [], ◌∷◌, ◌++◌, Option, none, some,
  if◌then◌else◌, any, filter,
}
use aoni.Base.Int.{ℤ}
use aoni.Base.Text.{Text, bytes, is_empty, has_prefix, is_space}

-- What the cache uses of other packages: query is what url.Parse and Query give, none where the text
-- has no query or is no URL; encode writes the URL back with another query; sort and digest are
-- slices.Sort and the first six bytes of SHA-256 in hexadecimal; directives, has_directive and
-- directive_duration are headkit.Directives and ParseDirectives of github.com/lemon4ksan/mach, with
-- none for a duration that is missing or negative; time_until is http.ParseTime with time.Until;
-- format is strconv.FormatInt, equal_fold strings.EqualFold, and canonical the canonical form of the
-- name of a header, with which http.Header works.
pub record Library : Type 0 where
  pub query : Text → Option (List (Text × List Text))
  pub encode : Text → List (Text × List Text) → Text
  pub sort : List Text → List Text
  pub digest : Text → Text
  pub directives : Text → List Text
  pub has_directive : Text → Text → Bool
  pub directive_duration : Text → Text → Option ℕ
  pub time_until : Text → Option ℤ
  pub format : ℕ → Text
  pub equal_fold : Text → Text → Bool
  pub canonical : Text → Text

pub record NoVarySearchConfig : Type 0 where
  pub ignore_params : List Text
  pub except_params : List Text
  pub ignore_all_params : Bool

abbrev pub default_ignored_tracking_params : List Text
default_ignored_tracking_params =
    bytes "utm_source"
    ∷ bytes "utm_medium"
    ∷ bytes "utm_campaign"
    ∷ bytes "utm_term"
    ∷ bytes "utm_content"
    ∷ bytes "fbclid"
    ∷ bytes "gclid"
    ∷ bytes "msclkid"
    ∷ bytes "_ga"
    ∷ bytes "ref"
    ∷ []

abbrev pub default_no_vary_search : NoVarySearchConfig
default_no_vary_search = record {
  ignore_params = default_ignored_tracking_params;
  except_params = [];
  ignore_all_params = false;
}

unfoldable pub should_ignore_query_param : Library → Text → NoVarySearchConfig → Bool
should_ignore_query_param lib key cfg =
    if cfg.ignore_all_params
    then not (any (lib.equal_fold key) cfg.except_params)
    else any (lib.equal_fold key) cfg.ignore_params

unfoldable pub filter_query_params :
    Library → List (Text × List Text) → NoVarySearchConfig → List (Text × List Text)
filter_query_params lib [] cfg = []
filter_query_params lib ((key, values) ∷ query) cfg =
    let rest = filter_query_params lib query cfg in
    if should_ignore_query_param lib key cfg then rest else (key, values) ∷ rest

abbrev active : Option NoVarySearchConfig → NoVarySearchConfig
active none = default_no_vary_search
active (some cfg) = cfg

unfoldable pub normalize_cache_url : Library → Text → Option NoVarySearchConfig → Text
normalize_cache_url lib raw cfg = if is_empty raw then [] else elim (lib.query raw) [
  | none ↦ raw
  | some query ↦ lib.encode raw (filter_query_params lib query (active cfg))
]

-- The cookie that the inner loop takes for a name, as it stands in the header.
unfoldable pub match_cookie : Library → List (Text × Text) → Text → Option Text
match_cookie lib [] name = none
match_cookie lib ((n, v) ∷ cookies) name =
    if lib.equal_fold n name then some (n ++ (b'=' ∷ v)) else match_cookie lib cookies name

unfoldable pub match_cookies : Library → List (Text × Text) → List Text → List Text
match_cookies lib cookies [] = []
match_cookies lib cookies (name ∷ names) =
    let rest = match_cookies lib cookies names in
    elim (match_cookie lib cookies name) [ none ↦ rest | some c ↦ c ∷ rest ]

abbrev pub join : List Text → Text
join [] = []
join (t ∷ ts) = elim ts [ [] ↦ t | u ∷ us ↦ t ++ (b';' ∷ join ts) ]

abbrev hashed : Library → List Text → Text
hashed lib [] = []
hashed lib (m ∷ ms) = lib.digest (join (lib.sort (m ∷ ms)))

unfoldable pub compute_cookie_indices_hash : Library → List (Text × Text) → List Text → Text
compute_cookie_indices_hash lib cookies names = hashed lib (match_cookies lib cookies names)

abbrev drop_length : Text → Text → Text
drop_length [] s = s
drop_length (x ∷ p) [] = []
drop_length (x ∷ p) (y ∷ s) = drop_length p s

unfoldable pub parse_cookie_indices_header : Library → Text → List Text
parse_cookie_indices_header lib header =
    if is_empty header then [] else filter (λ k. not (is_empty k)) (lib.directives header)

-- The text after the first occurrence of a pattern.
unfoldable pub after_pattern : Text → Text → Option Text
after_pattern p [] = if is_empty p then some [] else none
after_pattern p (c ∷ s) =
    let rest = after_pattern p s in
    if has_prefix (c ∷ s) p then some (drop_length p (c ∷ s)) else rest

abbrev pub contains : Text → Text → Bool
contains s p = elim (after_pattern p s) [ none ↦ false | some t ↦ true ]

-- The text before a closing parenthesis.
unfoldable pub before_parenthesis : Text → Option Text
before_parenthesis [] = none
before_parenthesis (c ∷ s) =
    if c == b')'
    then some []
    else elim (before_parenthesis s) [ none ↦ none | some t ↦ some (c ∷ t) ]

-- strings.FieldsSeq, with the field that is being read.
unfoldable pub fields : Text → Text → List Text
fields [] word = if is_empty word then [] else word ∷ []
fields (c ∷ s) word =
    let next = fields s (if is_space c then [] else word ++ (c ∷ [])) in
    if is_space c && not (is_empty word) then word ∷ next else next

abbrev is_quote : ℕ → Bool
is_quote c = c == 0x22 || c == 0x27

abbrev trim_quotes_left : Text → Text
trim_quotes_left [] = []
trim_quotes_left (c ∷ s) = if is_quote c then trim_quotes_left s else c ∷ s

abbrev trim_quotes_right : Text → Text
trim_quotes_right [] = []
trim_quotes_right (c ∷ s) = elim (trim_quotes_right s) [
  | [] ↦ if is_quote c then [] else c ∷ []
  | d ∷ t ↦ c ∷ (d ∷ t)
]

unfoldable pub clean_params : List Text → List Text
clean_params [] = []
clean_params (p ∷ ps) =
    let cleaned = trim_quotes_right (trim_quotes_left p) in
    let rest = clean_params ps in if is_empty cleaned then rest else cleaned ∷ rest

unfoldable pub parse_header_params_list : Text → List Text
parse_header_params_list s = clean_params (fields s [])

abbrev listed : Option Text → List Text
listed none = []
listed (some s) = elim (before_parenthesis s) [ none ↦ [] | some t ↦ parse_header_params_list t ]

unfoldable pub parse_no_vary_search_header : Text → NoVarySearchConfig
parse_no_vary_search_header header =
    if contains header (bytes "params") && not (contains header (bytes "params=("))
    then record { ignore_params = []; except_params = []; ignore_all_params = true }
    else record {
      ignore_params = listed (after_pattern (bytes "params=(") header);
      except_params = listed (after_pattern (bytes "except=(") header);
      ignore_all_params = false;
    }
