-- ===== src/Proxy/Once.antt =====
-- proxy/proxy.go: no client is called twice for a request.
use native.Mathlib.Nat.{mod-lt, mod-eq_of_lt, add-mod_right, mod-add-mod}
use aoni.Base.{
  ℕ, zero, suc, ◌+◌, ◌-◌, ◌%◌, ◌^◌, ◌≤◌, ◌<◌, ◌==◌, ◌≡◌, refl, sym, ap, ◌∙◌, inl, inr, false, List,
  [], ◌∷◌, Option, none, some, arith, ltb, length, get_elem?, set, All, Bool-cases, Option-cases,
  length-set, ==_iff,
}
use mathlib.Core.Logic.{◌≢◌}
use aoni.Base.Text.{Text}
use aoni.Health.{is_available}
use aoni.Proxy.Pool.{Caches, Request, TrackedClient, Rotator, is_domain_cooled_down}
use aoni.Proxy.Rotation.{
  Net, next_index, attempt, can_serve, Outcome, Round, is_sticky, visit, round, rounds,
  sticky_first, session_of, get_sticky_client_index, rotator_do,
}
use aoni.Proxy.Served.{offset, next_index-eq}

-- No number stands in the list twice.
abbrev pub Distinct : List ℕ → Type 0
Distinct [] = Unit
Distinct (i ∷ is) = All (λ j. j ≢ i) is × Distinct is

All-map {ℓ κ} :
    {A : Type ℓ} (P Q : A → Type κ) → ((a : A) → P a → Q a) → (xs : List A) → All P xs → All Q xs
All-map P Q f [] h = h
All-map P Q f (x ∷ xs) (h, hs) = (f x h, All-map P Q f xs hs)

-- Two numbers that are less than n apart differ modulo n.
mod_distinct : (a n t : ℕ) → 0 < t → t < n → (a + t) % n ≢ a % n
mod_distinct a n t lo hi same =
    let small : a % n < n = mod-lt a (omega arith) in
    let shifted : (a % n + t) % n ≡ a % n = mod-add-mod a n t ∙ same in
    elim (Bool-cases (ltb (a % n + t) n)) [
      | inl q ↦
          let h : a % n + t < n = ground arith in
          let here : (a % n + t) % n ≡ a % n + t = mod-eq_of_lt h in
          absurd (omega (arith, here, shifted))
      | inr q ↦
          let e : a % n + t ≡ (a % n + t - n) + n = ground arith in
          let here : (a % n + t) % n ≡ a % n + t - n =
            ap (λ x. x % n) e ∙ add-mod_right (a % n + t - n) n ∙ mod-eq_of_lt (omega arith) in
          absurd (omega (arith, here, shifted, q))
    ]

module _ (caches : Caches) (net : Net) (domain id : Text) (sticky_idx : Option ℕ)
    (sessions : caches.Sessions) (ttl n : ℕ) where
  -- An index of one of the next m rounds, and not that of the session's client.
  Comes : ℕ → ℕ → ℕ → Type 0
  Comes m c i =
      ((t : ℕ) × (t < m) × ((c + offset n + t) % n ≡ i))
      × (is_sticky caches net domain id sticky_idx sessions ttl i ≡ false)

  IsOnce : ℕ → ℕ → Outcome caches → Type 0
  IsOnce m c o = All (Comes m c) o.sent × Distinct o.sent

  Goes : ℕ → ℕ → (Round caches → Outcome caches) → Type 0
  Goes m c rest = (r : Round caches) → r.current ≡ c → length r.clients ≡ n → IsOnce m c (rest r)

  Comes-suc : (m c i : ℕ) → Comes m (c + 1) i → Comes (suc m) c i
  unfolding Comes
  Comes-suc m c i ((t, lt, e), s) = ((suc t, omega arith, ap (λ x. x % n) (omega arith) ∙ e), s)

  IsOnce-suc : (m c : ℕ) (o : Outcome caches) → IsOnce m (c + 1) o → IsOnce (suc m) c o
  unfolding IsOnce
  IsOnce-suc m c o (a, d) = (All-map _ _ (Comes-suc m c) o.sent a, d)

  Comes-ne : (m c i : ℕ) → suc m ≤ n → Comes m (c + 1) i → i ≢ (c + offset n) % n
  unfolding Comes
  Comes-ne m c i small ((t, lt, e), s) same =
      mod_distinct (c + offset n) n (suc t) (omega arith) (omega arith)
        (ap (λ x. x % n) (omega arith) ∙ e ∙ same)

  Comes-other : (m c s i : ℕ) → sticky_idx ≡ some s → Comes m c i → i ≢ s
  unfolding Comes
  Comes-other m c s i e (_, apart) same =
      let alone : (i == s) ≡ false =
        sym (ap (λ o. elim o [ none ↦ false | some j ↦ i == j ]) e) ∙ apart in
      absurd (cc (alone, (==_iff i s).1 same))

  module _ (m k c : ℕ) (rest : Round caches → Outcome caches) (goes : Goes m (c + 1) rest)
      (small : suc m ≤ n) where
    abbrev turned : ℕ
    turned = (c + offset n) % n

    go_on :
        (r' : Round caches)
        → r'.current ≡ c + 1
        → length r'.clients ≡ n
        → IsOnce (suc m) c (rest r')
    unfolding Goes
    go_on r' e len = IsOnce-suc m c (rest r') (goes r' e len)

    Comes-turned :
        is_sticky caches net domain id sticky_idx sessions ttl turned ≡ false
        → Comes (suc m) c turned
    unfolding Comes
    Comes-turned s = ((0, omega arith, ap (λ x. x % n) (omega arith)), s)

    call-IsOnce :
        (o : Outcome caches)
        → is_sticky caches net domain id sticky_idx sessions ttl turned ≡ false
        → IsOnce m (c + 1) o
        → IsOnce (suc m) c (record o { sent = turned ∷ o.sent })
    unfolding IsOnce
    call-IsOnce o s (a, d) = (
      (Comes-turned s, All-map _ _ (Comes-suc m c) o.sent a),
      (All-map _ _ (λ i. Comes-ne m c i small) o.sent a, d),
    )

    visit-IsOnce :
        (tc : Option (TrackedClient caches)) (r : Round caches)
        → length r.clients ≡ n
        → is_sticky caches net domain id sticky_idx sessions ttl turned ≡ false
        → IsOnce
            (suc m)
            c
            (visit caches net domain id sticky_idx sessions ttl k turned (c + 1) tc r rest)
    unfolding IsOnce Goes
    visit-IsOnce none r len s = (_, _)
    visit-IsOnce (some tc) r len s =
        elim (Bool-cases (is_available (net.checked_at k) tc.tracker)) [
          | inr u ↦ rw u (go_on _ refl len)
          | inl u ↦ elim (Bool-cases (is_domain_cooled_down caches (net.checked_at k) domain tc)) [
            | inl w ↦ rw (u, w) (go_on _ refl len)
            | inr w ↦
                let t = attempt caches net k domain tc in
                elim (Bool-cases t.accepted) [
                  | inl a ↦ rw (u, w, a) ((Comes-turned s, _), (_, _))
                  | inr a ↦
                      let r' : Round caches = record r {
                        clients = set r.clients turned t.client;
                        current = c + 1;
                        last_err = t.error;
                      } in
                      rw (u, w, a)
                        (call-IsOnce (rest r') s
                          (goes r' refl (length-set r.clients turned t.client ∙ len)))
                ]
          ]
        ]

    round-IsOnce :
        c + 1 < 2 ^ 32
        → Goes (suc m) c (λ r.
          round caches net domain id sticky_idx sessions ttl k
            (next_index (length r.clients) r.current)
            r
            rest)
    unfolding Goes
    round-IsOnce below r e len =
        let next : next_index (length r.clients) r.current ≡ (turned, c + 1) =
          rw (len, e) (next_index-eq n c below) in
        rw next (elim (Bool-cases (is_sticky caches net domain id sticky_idx sessions ttl turned)) [
          | inl q ↦ rw q (go_on _ refl len)
          | inr q ↦ rw q (visit-IsOnce (get_elem? r.clients turned) r len q)
        ])

  rounds-IsOnce :
      (m k c : ℕ)
      → m ≤ n
      → c + m < 2 ^ 32
      → Goes m c (rounds caches net domain id sticky_idx sessions ttl m k)
  unfolding rounds Goes IsOnce
  rounds-IsOnce zero k c small below r e len = (_, _)
  rounds-IsOnce (suc m) k c small below r e len =
      round-IsOnce m k c (rounds caches net domain id sticky_idx sessions ttl m (suc k))
        (rounds-IsOnce m (suc k) (c + 1) (omega arith) (omega arith)) small (omega arith) r e len

  sticky_first-Distinct :
      (m : ℕ) (r : Round caches) (rest : Round caches → Outcome caches)
      → Goes m r.current rest
      → length r.clients ≡ n
      → (o : Option ℕ) → sticky_idx ≡ o
      → Distinct (sticky_first caches net domain sessions o r rest).sent
  unfolding Goes IsOnce Comes
  sticky_first-Distinct m r rest goes len none e = (goes r refl len).1
  sticky_first-Distinct m r rest goes len (some s) e = elim (Option-cases (get_elem? r.clients s)) [
    | inl z ↦ rw z (goes r refl len).1
    | inr (tc, z) ↦
        let t = attempt caches net 0 domain tc in
        elim (Bool-cases (can_serve caches net 0 domain tc)) [
          | inr u ↦ rw (z, u) (goes r refl len).1
          | inl u ↦ elim (Bool-cases t.accepted) [
            | inl a ↦ rw (z, u, a) (_, _)
            | inr a ↦
                let (all, d) = goes _ refl (length-set r.clients s t.client ∙ len) in
                rw (z, u, a) (All-map _ _ (λ i h. Comes-other m r.current s i e h) _ all, d)
          ]
        ]
  ]

-- Do sends a request to no client of the pool twice, that of the session included, however the
-- attempts end. The counter must not wrap around during the call.
pub rotator_do-Distinct :
    (caches : Caches) (net : Net) (req : Request) (r : Rotator caches)
    → r.current + length r.clients < 2 ^ 32
    → Distinct (rotator_do caches net req r).0.sent
unfolding rotator_do
rotator_do-Distinct caches net req r small =
    let id = session_of caches req r in
    let found = get_sticky_client_index caches (net.checked_at 0) id r.session_ttl r.sessions in
    let n = length r.clients in
    elim (Bool-cases (n == 0)) [
      | inl e ↦ rw e _
      | inr e ↦ rw e (
          sticky_first-Distinct caches net req.host id found.0 found.1 r.session_ttl n n _ _
            (rounds-IsOnce caches net req.host id found.0 found.1 r.session_ttl n n 1 r.current
              (omega arith) small)
            refl found.0 refl)
    ]
