-- ===== src/Cookie/Jar/Lifetime.antt =====
-- What is set is sent, what is deleted is gone, and the order of what is sent.
use aoni.Base.{
  ℕ, ◌≤◌, ◌≡◌, refl, ◌⊎◌, inl, inr, Bool, true, false, List, [], ◌∷◌, arith, ltb, length,
  Bool-cases, All,
}
use aoni.Base.Text.{Text, text_eq_iff}
use aoni.Base.Foundation.{Foundation}
use aoni.Cookie.Jar.{
  StdCookie, Key, Store, delete, purge_expired_cookies, from_std, insert_sorted, sort_for_browser,
  Request, Suffixes, is_refused, key_of, stored_of, set_cookie, set_each, set_cookies, is_sent,
  valid_cookies, cookies, is_expired_cookie, key_eq,
}

-- Some element has the property.
abbrev pub Some : (StdCookie → Type 0) → List StdCookie → Type 0
Some P [] = ⊥
Some P (c ∷ cs) = P c ⊎ Some P cs

insert_sorted-Some :
    (P : StdCookie → Type 0) (c : StdCookie) (ds : List StdCookie)
    → P c ⊎ Some P ds
    → Some P (insert_sorted c ds)
unfolding insert_sorted
insert_sorted-Some P c [] h = h
insert_sorted-Some P c (d ∷ ds) h = elim (Bool-cases (ltb (length c.path) (length d.path))) [
  | inr e ↦ rw e h
  | inl e ↦ rw e (elim h [
    | inl p ↦ inr (insert_sorted-Some P c ds (inl p))
    | inr q ↦ elim q [ inl p ↦ inl p | inr r ↦ inr (insert_sorted-Some P c ds (inr r)) ]
  ])
]

sort-Some :
    (P : StdCookie → Type 0) (cs : List StdCookie) → Some P cs → Some P (sort_for_browser cs)
unfolding sort_for_browser
sort-Some P [] h = elim h [ ]
sort-Some P (c ∷ cs) (inl h) = insert_sorted-Some P c (sort_for_browser cs) (inl h)
sort-Some P (c ∷ cs) (inr h) = insert_sorted-Some P c (sort_for_browser cs) (inr (sort-Some P cs h))

-- No later path is longer.
abbrev pub IsSorted : List StdCookie → Type 0
IsSorted [] = Unit
IsSorted (c ∷ cs) = All (λ d. length d.path ≤ length c.path) cs × IsSorted cs

insert_sorted-below :
    (n : ℕ) (c : StdCookie) (ds : List StdCookie)
    → length c.path ≤ n
    → All (λ d. length d.path ≤ n) ds
    → All (λ d. length d.path ≤ n) (insert_sorted c ds)
unfolding insert_sorted
insert_sorted-below n c [] h hs = (h, tt)
insert_sorted-below n c (d ∷ ds) h (k, hs) = ground (arith, insert_sorted-below n c ds h hs)

All-le :
    (m n : ℕ) (ds : List StdCookie)
    → m ≤ n
    → All (λ d. length d.path ≤ m) ds
    → All (λ d. length d.path ≤ n) ds
All-le m n [] h hs = tt
All-le m n (d ∷ ds) h (k, hs) = (omega arith, All-le m n ds h hs)

insert_sorted-IsSorted :
    (c : StdCookie) (ds : List StdCookie) → IsSorted ds → IsSorted (insert_sorted c ds)
unfolding insert_sorted
insert_sorted-IsSorted c [] h = (tt, tt)
insert_sorted-IsSorted c (d ∷ ds) (h, hs) =
    elim (Bool-cases (ltb (length c.path) (length d.path))) [
      | inl e ↦ rw e (
        insert_sorted-below (length d.path) c ds (ground arith) h,
        insert_sorted-IsSorted c ds hs,
      )
      | inr e ↦
          rw e ((ground arith, All-le (length d.path) (length c.path) ds (ground arith) h), (h, hs))
    ]

sort-IsSorted : (cs : List StdCookie) → IsSorted (sort_for_browser cs)
unfolding sort_for_browser
sort-IsSorted [] = tt
sort-IsSorted (c ∷ cs) = insert_sorted-IsSorted c (sort_for_browser cs) (sort-IsSorted cs)

key_eq_refl : (k : Key) → key_eq k k ≡ true
key_eq_refl k = ground (
  arith,
  text_eq_iff k.domain k.domain,
  text_eq_iff k.path k.path,
  text_eq_iff k.name k.name,
  text_eq_iff k.partition_key k.partition_key,
)

delete-All : (k : Key) (m : Store) → All (λ e. key_eq e.0 k ≡ false) (delete k m)
unfolding delete
delete-All k [] = tt
delete-All k ((j, c) ∷ m) = elim (Bool-cases (key_eq j k)) [
  | inl e ↦ rw e (delete-All k m)
  | inr e ↦ rw e (e, delete-All k m)
]

purge-All :
    (P : Key → Type 0) (now : ℕ) (m : Store)
    → All (λ e. P e.0) m
    → All (λ e. P e.0) (purge_expired_cookies now m)
unfolding purge_expired_cookies
purge-All P now [] h = h
purge-All P now ((j, c) ∷ m) (h, hs) = ground (arith, purge-All P now m hs)

module _ (lib : Foundation) (parse_ip : Text → Bool) (psl : Suffixes) where
  -- The cookies of a request are ordered by falling length of their paths.
  cookies-IsSorted : (req : Request) (m : Store) → IsSorted (cookies lib parse_ip psl req m).0
  unfolding cookies
  cookies-IsSorted req m = sort-IsSorted (valid_cookies lib parse_ip psl req m)

  abbrev pub IsCookie : StdCookie → StdCookie → Type 0
  IsCookie k r = (r.name ≡ k.name) × (r.value ≡ k.value) × (r.secure ≡ k.secure)

  -- A cookie that the jar accepts is sent, with its value, with every request at any time that its
  -- rules admit, whatever the jar held before; it has expired neither when it is set nor when it is
  -- sent.
  pub cookies-set_cookies :
      (q req : Request) (k : StdCookie) (m : Store)
      → is_refused lib parse_ip psl q k ≡ false
      → is_expired_cookie k.expires k.max_age q.now ≡ false
      → is_sent lib parse_ip psl req (stored_of lib parse_ip psl q k) ≡ true
      → Some
          (IsCookie k)
          (cookies lib parse_ip psl req (set_cookies lib parse_ip psl q (k ∷ []) m)).0
  unfolding cookies set_cookies set_each set_cookie purge_expired_cookies valid_cookies from_std
  cookies-set_cookies q req k m accepted fresh sent =
      sort-Some (IsCookie k) _ (rw (accepted, fresh, fresh) (rw sent (inl (refl, refl, refl))))

  -- Setting a cookie with an expiry in the past or a negative age leaves no cookie of its domain,
  -- path, name and partition in the jar.
  pub set_cookies-delete :
      (q : Request) (k : StdCookie) (m : Store)
      → is_refused lib parse_ip psl q k ≡ false
      → is_expired_cookie k.expires k.max_age q.now ≡ true
      → All
          (λ e. key_eq e.0 (key_of lib parse_ip psl q k) ≡ false)
          (set_cookies lib parse_ip psl q (k ∷ []) m)
  unfolding set_cookies set_each set_cookie
  set_cookies-delete q k m accepted expired =
      purge-All (λ j. key_eq j (key_of lib parse_ip psl q k) ≡ false) q.now _
        (rw (accepted, expired) (delete-All (key_of lib parse_ip psl q k) m))
