-- ===== src/Referer/Tests.antt =====
-- Runs and instances for the Referer header.
use aoni.Base.{◌≡◌, refl, [], ◌++◌, some, if◌then◌else◌}
use aoni.Base.Text.{bytes, text_eq}
use aoni.Referer.{
  strict_origin_when_cross_origin, Url, copy, origin_of, new_referer_automaton, is_downgrade,
  compute_referer, update_last_url,
}
use aoni.Referer.Policy.{compute_referer-cross_origin}

abbrev page : Url
page = record {
  scheme = bytes "https";
  host = bytes "a.org";
  string = bytes "https://a.org/private?id=7";
}

abbrev image : Url
image = record {
  scheme = bytes "https";
  host = bytes "b.org";
  string = bytes "https://b.org/i.png";
}

abbrev plain : Url
plain = record { scheme = bytes "http"; host = bytes "b.org"; string = bytes "http://b.org/i.png" }

shows_origin :
    compute_referer text_eq
      (update_last_url (some page) (new_referer_automaton strict_origin_when_cross_origin))
      (some image)
    ≡ bytes "https://a.org/"
unfolding compute_referer update_last_url new_referer_automaton origin_of copy
shows_origin = refl

compute_referer-cross_origin_example :
    compute_referer text_eq
      (record { last_url = some page; policy = strict_origin_when_cross_origin })
      (some image)
    ≡ (if is_downgrade page image
        then []
        else bytes "https" ++ (bytes "://" ++ (bytes "a.org" ++ bytes "/")))
compute_referer-cross_origin_example = compute_referer-cross_origin text_eq page image refl
