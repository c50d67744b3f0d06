-- ===== src/Cookie/Jar.antt =====
-- cookie/memory_jar.go, with isExpiredCookie and purgeExpiredCookies of cookie/jar.go and FromStd and
-- SortForBrowser of cookie/cookie.go. The map is an association list; the order in which a Go map is
-- walked is not fixed, so the laws are about which cookies there are. The lock is held for each call.
pub mod Origin
pub mod Lifetime
use aoni.Base.{
  ℕ, suc, ◌≡◌, Bool, true, false, not, ◌&&◌, ◌||◌, List, [], ◌∷◌, Option, none, some, ltb, leb,
  if◌then◌else◌, length, map,
}
use aoni.Base.Int.{ℤ, pos, negsuc}
use aoni.Base.Text.{Text, bytes, text_eq, is_empty, to_lower}
use aoni.Base.Foundation.{Foundation}
use aoni.Cookie.Rules.{Cookie, no_cookie, path_match, domain_match}

pub data SameSite : Type 0 where
  unset lax strict no_site : SameSite

-- http.Cookie
pub record StdCookie : Type 0 where
  pub name : Text
  pub value : Text
  pub domain : Text
  pub path : Text
  pub expires : Option ℕ
  pub http_only : Bool
  pub secure : Bool
  pub same_site : SameSite
  pub partitioned : Bool
  pub max_age : ℤ

pub record Key : Type 0 where
  pub domain : Text
  pub path : Text
  pub name : Text
  pub partition_key : Text

abbrev pub key_eq : Key → Key → Bool
key_eq a b =
    text_eq a.domain b.domain
    && (text_eq a.path b.path && (text_eq a.name b.name && text_eq a.partition_key b.partition_key))

abbrev pub Store : Type 0
Store = List (Key × Cookie)

unfoldable pub delete : Key → Store → Store
delete k [] = []
delete k ((j, c) ∷ m) = if key_eq j k then delete k m else (j, c) ∷ delete k m

abbrev pub assign : Key → Cookie → Store → Store
assign k c m = (k, c) ∷ delete k m

abbrev before : Option ℕ → ℕ → Bool
before none now = false
before (some t) now = ltb t now

abbrev is_negative : ℤ → Bool
is_negative (pos n) = false
is_negative (negsuc n) = true

unfoldable pub is_expired_cookie : Option ℕ → ℤ → ℕ → Bool
is_expired_cookie expires max_age now = before expires now || is_negative max_age

unfoldable pub purge_expired_cookies : ℕ → Store → Store
purge_expired_cookies now [] = []
purge_expired_cookies now ((k, c) ∷ m) =
    if is_expired_cookie c.expires c.max_age now
    then purge_expired_cookies now m
    else (k, c) ∷ purge_expired_cookies now m

-- A nil cookie is not modelled: the jar has none.
unfoldable pub from_std : Foundation → StdCookie → Text → Text → Cookie
from_std lib c default_domain default_path = record no_cookie {
  name = c.name;
  value = c.value;
  domain = to_lower (lib.coalesce_text c.domain default_domain);
  path = lib.coalesce_text c.path default_path;
  expires = c.expires;
  http_only = c.http_only;
  secure = c.secure;
  max_age = c.max_age;
}

abbrev site_of : Text → SameSite
site_of s =
    if text_eq s (bytes "Lax")
    then lax
    else if text_eq s (bytes "Strict")
    then strict
    else if text_eq s (bytes "None")
    then no_site
    else unset

unfoldable pub to_std : Cookie → StdCookie
to_std c = record {
  name = c.name;
  value = c.value;
  domain = c.domain;
  path = c.path;
  expires = c.expires;
  http_only = c.http_only;
  secure = c.secure;
  same_site = site_of c.same_site;
  partitioned = c.partitioned;
  max_age = c.max_age;
}

-- slices.SortStableFunc by falling length of the path, as an insertion sort: what is not shorter
-- stays in front.
unfoldable pub insert_sorted : StdCookie → List StdCookie → List StdCookie
insert_sorted c [] = c ∷ []
insert_sorted c (d ∷ ds) =
    if ltb (length c.path) (length d.path) then d ∷ insert_sorted c ds else c ∷ d ∷ ds

unfoldable pub sort_for_browser : List StdCookie → List StdCookie
unfolding insert_sorted
sort_for_browser [] = []
sort_for_browser (c ∷ cs) = insert_sorted c (sort_for_browser cs)

-- The context and URL of a call: the partition key, u.Hostname(), u.Path, whether the scheme is
-- https, and the coarse clock.
pub record Request : Type 0 where
  pub partition : Text
  pub host : Text
  pub path : Text
  pub is_secure : Bool
  pub now : ℕ

-- A list of public suffixes, if one is set.
abbrev pub Suffixes : Type 0
Suffixes = Option (Text → Text)

module _ (lib : Foundation) (parse_ip : Text → Bool) (psl : Suffixes) where
  abbrev pub is_public : Text → Bool
  is_public domain = elim psl [ none ↦ false | some suffix ↦ text_eq (suffix domain) domain ]

  abbrev pub cookie_domain : Request → StdCookie → Text
  cookie_domain req c = to_lower (if is_empty c.domain then req.host else c.domain)

  abbrev pub is_refused : Request → StdCookie → Bool
  is_refused req c =
      not (is_empty c.domain)
      && (is_public (cookie_domain req c)
          || not (domain_match parse_ip req.host (cookie_domain req c)))

  abbrev pub key_of : Request → StdCookie → Key
  key_of req c = record {
    domain = cookie_domain req c;
    path = lib.coalesce_text c.path (bytes "/");
    name = c.name;
    partition_key = lib.ternary c.partitioned req.partition [];
  }

  abbrev pub stored_of : Request → StdCookie → Cookie
  stored_of req c =
      let k = key_of req c in
      record (from_std lib c k.domain k.path) { partition_key = k.partition_key }

  -- One round of the loop of SetCookies.
  unfoldable pub set_cookie : Request → StdCookie → Store → Store
  set_cookie req c m =
      if is_refused req c
      then m
      else if is_expired_cookie c.expires c.max_age req.now
      then delete (key_of req c) m
      else assign (key_of req c) (stored_of req c) m

  unfoldable pub set_each : Request → List StdCookie → Store → Store
  set_each req [] m = m
  set_each req (c ∷ cs) m = set_each req cs (set_cookie req c m)

  unfoldable pub set_cookies : Request → List StdCookie → Store → Store
  unfolding set_each
  set_cookies req cs m = purge_expired_cookies req.now (set_each req cs m)

  unfoldable pub is_sent : Request → Cookie → Bool
  is_sent req c =
      not (is_expired_cookie c.expires c.max_age req.now)
      && ((is_empty c.partition_key || text_eq c.partition_key req.partition)
          && (domain_match parse_ip req.host c.domain
              && (path_match (lib.coalesce_text req.path (bytes "/")) c.path
                  && (not c.secure || req.is_secure))))

  unfoldable pub valid_cookies : Request → Store → List StdCookie
  unfolding to_std
  valid_cookies req [] = []
  valid_cookies req ((k, c) ∷ m) =
      if is_sent req c then to_std c ∷ valid_cookies req m else valid_cookies req m

  -- The cookies for a request, and the map without those that have expired.
  unfoldable pub cookies : Request → Store → List StdCookie × Store
  unfolding valid_cookies
  cookies req m = (sort_for_browser (valid_cookies req m), purge_expired_cookies req.now m)
