-- ===== src/Cookie/Jar/Origin.antt =====
-- Where the cookies of a request come from, over any history of the jar.
use aoni.Base.{
  ℕ, ◌≡◌, refl, sym, ◌⊎◌, inl, inr, Bool, true, false, ◌||◌, List, [], ◌∷◌, arith, Bool-cases, All,
}
use aoni.Base.Text.{Text, text_eq, text_eq_iff, is_empty, to_lower, lower_byte}
use aoni.Base.Foundation.{Foundation}
use aoni.Cookie.Rules.{Cookie, domain_match}
use aoni.Cookie.Jar.{
  StdCookie, unset, Key, Store, delete, purge_expired_cookies, from_std, to_std, insert_sorted,
  sort_for_browser, Request, Suffixes, cookie_domain, is_refused, stored_of, set_cookie, set_each,
  set_cookies, is_sent, valid_cookies, cookies, is_expired_cookie,
}

pub data Event : Type 0 where
  sets : Request → List StdCookie → Event
  reads : Request → Event

abbrev Each {ℓ} : (Cookie → Type ℓ) → Store → Type ℓ
Each P m = All (λ e. P e.1) m

module _ {ℓ} (P : Cookie → Type ℓ) where
  delete-Each : (k : Key) (m : Store) → Each P m → Each P (delete k m)
  unfolding delete
  delete-Each k [] h = h
  delete-Each k ((j, c) ∷ m) (h, hs) = ground (arith, delete-Each k m hs)

  purge-Each : (now : ℕ) (m : Store) → Each P m → Each P (purge_expired_cookies now m)
  unfolding purge_expired_cookies
  purge-Each now [] h = h
  purge-Each now ((j, c) ∷ m) (h, hs) = ground (arith, purge-Each now m hs)

Each-map {ℓ κ} :
    {P : Cookie → Type ℓ} {Q : Cookie → Type κ}
    → ((c : Cookie) → P c → Q c)
    → (m : Store) → Each P m
    → Each Q m
Each-map f [] h = tt
Each-map f ((k, c) ∷ m) (h, hs) = (f c h, Each-map f m hs)

insert_sorted-All {ℓ} :
    (P : StdCookie → Type ℓ) (c : StdCookie) (ds : List StdCookie)
    → P c
    → All P ds
    → All P (insert_sorted c ds)
unfolding insert_sorted
insert_sorted-All P c [] h hs = (h, tt)
insert_sorted-All P c (d ∷ ds) h (k, hs) = ground (arith, insert_sorted-All P c ds h hs)

sort-All {ℓ} :
    (P : StdCookie → Type ℓ) (cs : List StdCookie) → All P cs → All P (sort_for_browser cs)
unfolding sort_for_browser
sort-All P [] h = h
sort-All P (c ∷ cs) (h, hs) = insert_sorted-All P c (sort_for_browser cs) h (sort-All P cs hs)

lower_byte_idem : (c : ℕ) → lower_byte (lower_byte c) ≡ lower_byte c
lower_byte_idem c = ground arith

to_lower_idem : (s : Text) → to_lower (to_lower s) ≡ to_lower s
to_lower_idem [] = refl
to_lower_idem (c ∷ s) = cc (lower_byte_idem c, to_lower_idem s)

domain_match_lower :
    (parse_ip : Text → Bool) (h : Text) → domain_match parse_ip h (to_lower h) ≡ true
unfolding domain_match
domain_match_lower parse_ip h =
    let e : text_eq (to_lower h) (to_lower (to_lower h)) ≡ true =
      (text_eq_iff _ _).1 (sym (to_lower_idem h)) in
    rw e

module _ (lib : Foundation) (parse_ip : Text → Bool) (psl : Suffixes) where
  step : Event → Store → Store
  unfolding set_cookies cookies
  step (sets req cs) m = set_cookies lib parse_ip psl req cs m
  step (reads req) m = (cookies lib parse_ip psl req m).1

  -- The jar after these calls, the last of which stands first.
  pub after : List Event → Store
  unfolding step
  after [] = []
  after (e ∷ es) = step e (after es)

  -- `r`, as it is sent with `req`, is the cookie `k` that the call `q` set.
  pub record IsFrom (req q : Request) (k r : StdCookie) : Type 0 where
    pub same_name : r.name ≡ k.name
    pub same_value : r.value ≡ k.value
    pub set_by_host : domain_match parse_ip q.host r.domain ≡ true
    pub read_by_host : domain_match parse_ip req.host r.domain ≡ true
    pub same_partition :
        (k.partitioned ≡ false) ⊎ (q.partition ≡ []) ⊎ (q.partition ≡ req.partition)
    pub over_https : (k.secure ≡ false) ⊎ (req.is_secure ≡ true)

  abbrev pub FromCall : Request → Request → List StdCookie → StdCookie → Type 0
  FromCall req q [] r = ⊥
  FromCall req q (k ∷ ks) r = IsFrom req q k r ⊎ FromCall req q ks r

  -- Some call of SetCookies in the history set the cookie.
  abbrev pub Traced : Request → List Event → StdCookie → Type 0
  Traced req [] r = ⊥
  Traced req (sets q cs ∷ es) r = FromCall req q cs r ⊎ Traced req es r
  Traced req (reads q ∷ es) r = Traced req es r

  -- The same of a cookie in the jar.
  abbrev SetBy : Request → List StdCookie → Cookie → Type 0
  SetBy q [] c = ⊥
  SetBy q (k ∷ ks) c =
      ((is_refused lib parse_ip psl q k ≡ false) × (c ≡ stored_of lib parse_ip psl q k))
      ⊎ SetBy q ks c

  abbrev Came : List Event → Cookie → Type 0
  Came [] c = ⊥
  Came (sets q cs ∷ es) c = SetBy q cs c ⊎ Came es c
  Came (reads q ∷ es) c = Came es c

  set_cookie-Each :
      (P : Cookie → Type 0) (q : Request) (k : StdCookie) (m : Store)
      → (is_refused lib parse_ip psl q k ≡ false → P (stored_of lib parse_ip psl q k))
      → Each P m
      → Each P (set_cookie lib parse_ip psl q k m)
  unfolding set_cookie
  set_cookie-Each P q k m new h = elim (Bool-cases (is_refused lib parse_ip psl q k)) [
    | inl e ↦ rw e h
    | inr e ↦ elim (Bool-cases (is_expired_cookie k.expires k.max_age q.now)) [
      | inl x ↦ rw (e, x) (delete-Each P _ m h)
      | inr x ↦ rw (e, x) (new e, delete-Each P _ m h)
    ]
  ]

  set_each-Each :
      (P : Cookie → Type 0) (q : Request) (cs : List StdCookie) (m : Store)
      → ((c : Cookie) → SetBy q cs c → P c)
      → Each P m
      → Each P (set_each lib parse_ip psl q cs m)
  unfolding set_each
  set_each-Each P q [] m new h = h
  set_each-Each P q (k ∷ ks) m new h =
      set_each-Each P q ks (set_cookie lib parse_ip psl q k m) (λ c s. new c (inr s))
        (set_cookie-Each P q k m (λ e. new (stored_of lib parse_ip psl q k) (inl (e, refl))) h)

  after-Came : (es : List Event) → Each (Came es) (after es)
  unfolding after set_cookies cookies
  after-Came [] = tt
  after-Came (sets q cs ∷ es) = purge-Each _ q.now _ (
      set_each-Each _ q cs (after es) (λ c s. inl s)
        (Each-map (λ c s. inr s) (after es) (after-Came es)))
  after-Came (reads q ∷ es) = purge-Each _ q.now _ (after-Came es)

  stored_domain :
      (q : Request) (k : StdCookie)
      → (stored_of lib parse_ip psl q k).domain ≡ cookie_domain lib parse_ip psl q k
  unfolding from_std
  stored_domain q k =
      let l = lib.coalesce_text_lem k.domain (cookie_domain lib parse_ip psl q k) in
      elim (Bool-cases (is_empty k.domain)) [
        | inl e ↦ rw l (rw e (to_lower_idem q.host))
        | inr e ↦ rw l (rw e refl)
      ]

  accepted-match :
      (q : Request) (k : StdCookie)
      → is_refused lib parse_ip psl q k ≡ false
      → domain_match parse_ip q.host (cookie_domain lib parse_ip psl q k) ≡ true
  accepted-match q k h = elim (Bool-cases (is_empty k.domain)) [
    | inl e ↦ rw e (domain_match_lower parse_ip q.host)
    | inr e ↦ ground arith
  ]

  eq_nil_of_is_empty : (s : Text) → is_empty s ≡ true → s ≡ []
  eq_nil_of_is_empty [] h = refl
  eq_nil_of_is_empty (c ∷ s) h = cc

  stored_partition :
      (req q : Request) (k : StdCookie)
      → (is_empty (lib.ternary k.partitioned q.partition [])
          || text_eq (lib.ternary k.partitioned q.partition []) req.partition)
        ≡ true
      → (k.partitioned ≡ false) ⊎ (q.partition ≡ []) ⊎ (q.partition ≡ req.partition)
  stored_partition req q k h = ground (
    arith,
    lib.ternary_lem k.partitioned q.partition [],
    eq_nil_of_is_empty q.partition,
    text_eq_iff q.partition req.partition,
  )

  is_sent_parts :
      (req : Request) (c : Cookie)
      → is_sent lib parse_ip psl req c ≡ true
      → ((is_empty c.partition_key || text_eq c.partition_key req.partition) ≡ true)
        × (domain_match parse_ip req.host c.domain ≡ true)
        × ((c.secure ≡ false) ⊎ (req.is_secure ≡ true))
  unfolding is_sent
  is_sent_parts req c h = (ground arith, ground arith, ground arith)

  stored-IsFrom :
      (req q : Request) (k : StdCookie)
      → is_refused lib parse_ip psl q k ≡ false
      → is_sent lib parse_ip psl req (stored_of lib parse_ip psl q k) ≡ true
      → IsFrom req q k (to_std (stored_of lib parse_ip psl q k))
  unfolding to_std from_std
  stored-IsFrom req q k h s =
      let (a, b, c) = is_sent_parts req (stored_of lib parse_ip psl q k) s in
      record {
        same_name = refl;
        same_value = refl;
        set_by_host = rw (stored_domain q k) (accepted-match q k h);
        read_by_host = b;
        same_partition = stored_partition req q k a;
        over_https = c;
      }

  SetBy-FromCall :
      (req q : Request) (ks : List StdCookie) (c : Cookie)
      → is_sent lib parse_ip psl req c ≡ true
      → SetBy q ks c
      → FromCall req q ks (to_std c)
  SetBy-FromCall req q [] c s h = h
  SetBy-FromCall req q (k ∷ ks) c s (inl (accepted, e)) =
      inl (rw e (stored-IsFrom req q k accepted (rw e at s)))
  SetBy-FromCall req q (k ∷ ks) c s (inr h) = inr (SetBy-FromCall req q ks c s h)

  Came-Traced :
      (req : Request) (es : List Event) (c : Cookie)
      → is_sent lib parse_ip psl req c ≡ true
      → Came es c
      → Traced req es (to_std c)
  Came-Traced req [] c s h = h
  Came-Traced req (sets q cs ∷ es) c s (inl h) = inl (SetBy-FromCall req q cs c s h)
  Came-Traced req (sets q cs ∷ es) c s (inr h) = inr (Came-Traced req es c s h)
  Came-Traced req (reads q ∷ es) c s h = Came-Traced req es c s h

  valid-All :
      (P : StdCookie → Type 0) (req : Request) (m : Store)
      → Each (λ c. is_sent lib parse_ip psl req c ≡ true → P (to_std c)) m
      → All P (valid_cookies lib parse_ip psl req m)
  unfolding valid_cookies
  valid-All P req [] h = h
  valid-All P req ((k, c) ∷ m) (h, hs) = elim (Bool-cases (is_sent lib parse_ip psl req c)) [
    | inl e ↦ rw e (h e, valid-All P req m hs)
    | inr e ↦ rw e (valid-All P req m hs)
  ]

  -- Over any history of the jar, each cookie that is sent with a request was set in some call, with
  -- that name and value, by a host that matches the cookie's domain, as the request's host does; a
  -- partitioned cookie is sent in the partition in which it was set, or in any if that was the empty
  -- one, and a secure cookie over https only.
  pub cookies-Traced :
      (es : List Event) (req : Request)
      → All (Traced req es) (cookies lib parse_ip psl req (after es)).0
  unfolding cookies
  cookies-Traced es req = sort-All (Traced req es) (valid_cookies lib parse_ip psl req (after es)) (
      valid-All (Traced req es) req (after es)
        (Each-map (λ c came sent. Came-Traced req es c sent came) (after es) (after-Came es)))

  flags_set :
      (q : Request) (ks : List StdCookie) (c : Cookie)
      → SetBy q ks c
      → ((to_std c).same_site ≡ unset) × ((to_std c).partitioned ≡ false)
  unfolding to_std from_std
  flags_set q [] c h = absurd h
  flags_set q (k ∷ ks) c (inl (_, e)) = rw e (refl, refl)
  flags_set q (k ∷ ks) c (inr h) = flags_set q ks c h

  flags_of :
      (es : List Event) (c : Cookie)
      → Came es c
      → ((to_std c).same_site ≡ unset) × ((to_std c).partitioned ≡ false)
  flags_of [] c h = absurd h
  flags_of (sets q cs ∷ es) c (inl h) = flags_set q cs c h
  flags_of (sets q cs ∷ es) c (inr h) = flags_of es c h
  flags_of (reads q ∷ es) c h = flags_of es c h

  -- No cookie that is sent carries its SameSite policy or its Partitioned flag: whatever the calls
  -- set, both are at their default.
  cookies-flags :
      (es : List Event) (req : Request)
      → All
          (λ r. (r.same_site ≡ unset) × (r.partitioned ≡ false))
          (cookies lib parse_ip psl req (after es)).0
  unfolding cookies
  cookies-flags es req = sort-All _ (valid_cookies lib parse_ip psl req (after es)) (
      valid-All _ req (after es)
        (Each-map (λ c came sent. flags_of es c came) (after es) (after-Came es)))
