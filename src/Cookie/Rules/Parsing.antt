-- ===== src/Cookie/Rules/Parsing.antt =====
-- Limits of what ParseSetCookieHeader accepts.
use aoni.Base.{
  ℕ, ◌+◌, ◌≤◌, ◌≡◌, refl, ◌∙◌, ◌⊎◌, inl, inr, false, ◌||◌, List, [], ◌∷◌, Option, none, some, arith,
  ltb, length, Bool-cases,
}
use aoni.Base.Int.{ℤ, pos, negsuc, pos_part}
use aoni.Base.Text.{Text, is_empty}
use aoni.Base.Foundation.{Foundation}
use aoni.Base.Strconv.{atoi}
use aoni.Cookie.Rules.{
  Cookie, no_cookie, max_cookie_age_seconds, has_prohibited_control_chars, with_max_age,
  with_expires, parse_cookie_attribute, parse_attributes, parse_pairs, checked,
  parse_set_cookie_header,
}

module _ (lib : Foundation) (parse_time : Text → Option ℕ) where
  with_max_age-le :
      (n : Option ℤ) (c : Cookie)
      → pos_part c.max_age ≤ max_cookie_age_seconds
      → pos_part (with_max_age lib parse_time n c).max_age ≤ max_cookie_age_seconds
  with_max_age-le none c h = h
  with_max_age-le (some (pos n)) c h = ground arith
  with_max_age-le (some (negsuc n)) c h = omega arith

  with_expires-max_age :
      (t : Option ℕ) (c : Cookie) → (with_expires lib parse_time t c).max_age ≡ c.max_age
  with_expires-max_age none c = refl
  with_expires-max_age (some t) c = refl

  attribute-le :
      (key val : Text) (c : Cookie)
      → pos_part c.max_age ≤ max_cookie_age_seconds
      → pos_part (parse_cookie_attribute lib parse_time key val c).max_age ≤ max_cookie_age_seconds
  unfolding parse_cookie_attribute
  attribute-le key val c h =
      ground (arith, with_max_age-le (atoi val) c h, with_expires-max_age (parse_time val) c)

  max_age_keeps :
      (n : Option ℤ) (c : Cookie)
      → ((with_max_age lib parse_time n c).name ≡ c.name)
        × ((with_max_age lib parse_time n c).value ≡ c.value)
  max_age_keeps none c = (refl, refl)
  max_age_keeps (some n) c = (refl, refl)

  expires_keeps :
      (t : Option ℕ) (c : Cookie)
      → ((with_expires lib parse_time t c).name ≡ c.name)
        × ((with_expires lib parse_time t c).value ≡ c.value)
  expires_keeps none c = (refl, refl)
  expires_keeps (some t) c = (refl, refl)

  attribute-name :
      (key val : Text) (c : Cookie)
      → ((parse_cookie_attribute lib parse_time key val c).name ≡ c.name)
        × ((parse_cookie_attribute lib parse_time key val c).value ≡ c.value)
  unfolding parse_cookie_attribute
  attribute-name key val c = (
    ground (arith, max_age_keeps (atoi val) c, expires_keeps (parse_time val) c),
    ground (arith, max_age_keeps (atoi val) c, expires_keeps (parse_time val) c),
  )

  attributes_keep :
      (pairs : List (Text × Text)) (c : Cookie)
      → pos_part c.max_age ≤ max_cookie_age_seconds
      → (pos_part (parse_attributes lib parse_time pairs c).max_age ≤ max_cookie_age_seconds)
        × ((parse_attributes lib parse_time pairs c).name ≡ c.name)
        × ((parse_attributes lib parse_time pairs c).value ≡ c.value)
  unfolding parse_attributes
  attributes_keep [] c h = (h, refl, refl)
  attributes_keep ((key, val) ∷ pairs) c h =
      let one = attribute-name key val c in
      let (a, b, d) =
        attributes_keep pairs (parse_cookie_attribute lib parse_time key val c)
          (attribute-le key val c h) in
      (a, b ∙ one.0, d ∙ one.1)

  -- What an accepted header gives, when it was scanned into these pairs.
  abbrev pub IsAccepted : List (Text × Text) → Text → Cookie → Type 0
  IsAccepted pairs header c =
      (rest : List (Text × Text)) × (pairs ≡ (c.name, c.value) ∷ rest)
      × (has_prohibited_control_chars header ≡ false)
      × (is_empty c.name ≡ false)
      × (length c.name + length c.value ≤ 4096)
      × (pos_part c.max_age ≤ max_cookie_age_seconds)

  checked_cases :
      (header : Text) (key val : Text) (rest : List (Text × Text)) (c : Cookie)
      → has_prohibited_control_chars header ≡ false
      → (pos_part c.max_age ≤ max_cookie_age_seconds) × (c.name ≡ key) × (c.value ≡ val)
      → (checked lib parse_time c ≡ no_cookie)
        ⊎ IsAccepted ((key, val) ∷ rest) header (checked lib parse_time c)
  checked_cases header key val rest c clean (age, n, v) =
      elim (Bool-cases (is_empty c.name || ltb 4096 (length c.name + length c.value))) [
        | inl e ↦ inl (rw e)
        | inr e ↦ inr (rw e (rest, ground arith, clean, ground arith, ground arith, age))
      ]

  -- A Set-Cookie header is refused with the empty cookie, or it has no control character but the tab,
  -- the cookie has the name and value of its first pair whatever the attributes are, the name is not
  -- empty, name and value have 4096 bytes together at most, and the age is capped at 400 days.
  pub parse_set_cookie_header-IsAccepted :
      (scan_pairs : Text → List (Text × Text)) (header default_domain default_path : Text)
      → (parse_set_cookie_header lib parse_time scan_pairs header default_domain default_path
          ≡ no_cookie)
        ⊎ IsAccepted
            (scan_pairs header)
            header
            (parse_set_cookie_header lib parse_time scan_pairs header default_domain default_path)
  unfolding parse_set_cookie_header
  parse_set_cookie_header-IsAccepted scan_pairs header dd dp =
      elim (Bool-cases (is_empty header || has_prohibited_control_chars header)) [
        | inl e ↦ inl (rw e)
        | inr e ↦ rw e (pairs_cases (scan_pairs header) (ground arith))
      ]
    where
      start : Cookie
      start = record no_cookie { domain = dd; path = dp }

      pairs_cases :
          (pairs : List (Text × Text))
          → has_prohibited_control_chars header ≡ false
          → (checked lib parse_time (parse_pairs lib parse_time pairs start) ≡ no_cookie)
            ⊎ IsAccepted pairs header
                (checked lib parse_time (parse_pairs lib parse_time pairs start))
      pairs_cases [] clean = inl refl
      pairs_cases ((key, val) ∷ rest) clean =
          checked_cases header key val rest _ clean
            (attributes_keep rest (record start { name = key; value = val }) (omega arith))
