-- ===== src/Proxy/Served.antt =====
-- proxy/proxy.go: a client that serves is found, whatever the others do.
use native.Mathlib.Nat.{mod-lt}
use aoni.Base.{
  ℕ, zero, suc, ◌+◌, ◌-◌, ◌%◌, ◌^◌, ◌<◌, ◌≡◌, ◌≢◌, refl, sym, ap, ◌∙◌, inl, inr, true, false, not,
  List, Option, none, some, arith, ◌==◌, if◌then◌else◌, length, get_elem?, set, Bool-cases,
  Option-cases, ==_iff, length-set, get_elem?-set_ne,
}
use aoni.Base.Modular.{reaches, at_index}
use aoni.Base.Text.{Text}
use aoni.Health.{is_available}
use aoni.Balancer.Order.Occurs.{get_elem?-lt}
use aoni.Proxy.Pool.{
  Caches, Error, Response, Request, TrackedClient, Rotator, is_domain_cooled_down,
}
use aoni.Proxy.Rotation.{
  Net, is_proxy_fault, is_power_of_two, next_index, handle_proxy_result, attempt, Outcome, Round,
  is_sticky, can_serve, visit, round, rounds, call_sticky, sticky_first, session_of,
  get_sticky_client_index, rotator_do,
}

pub offset : ℕ → ℕ
offset n = if is_power_of_two n then 0 else 1

pub next_index-eq : (n c : ℕ) → c + 1 < 2 ^ 32 → next_index n c ≡ ((c + offset n) % n, c + 1)
unfolding next_index offset
next_index-eq n c h =
    let same : (c + 1) % 2 ^ 32 ≡ c + 1 = omega arith in
    let back : ((c + 1) % 2 ^ 32 + 2 ^ 32 - 1) % 2 ^ 32 ≡ c = omega arith in
    elim (Bool-cases (is_power_of_two n)) [
      | inl e ↦ rw (e, back, same) (ap (λ (m : ℕ). (m % n, c + 1)) (omega arith))
      | inr e ↦ rw (e, same) refl
    ]

module _ (caches : Caches) where
  abbrev pub IsServed : Outcome caches → Type 0
  IsServed o = (o.panicked ≡ false) × (is_proxy_fault o.resp o.error ≡ false)

module _ (caches : Caches) (net : Net) (domain : Text) where
  -- The client can serve the domain at each attempt, and what it replies is no fault.
  pub record Serves (tc : TrackedClient caches) : Type 0 where
    pub available : (k : ℕ) → is_available (net.checked_at k) tc.tracker ≡ true
    pub warm : (k : ℕ) → is_domain_cooled_down caches (net.checked_at k) domain tc ≡ false
    pub no_fault :
        (k : ℕ)
        → is_proxy_fault
            (net.reply k tc.client tc.proxy_url).0
            (net.reply k tc.client tc.proxy_url).1
          ≡ false

  handle_proxy_result-accepted :
      (now : ℕ) (tc : TrackedClient caches) (resp : Option Response) (error : Option Error)
      → (is_proxy_fault resp error
          ≡ not (handle_proxy_result caches now domain tc (resp, error)).accepted)
        × ((handle_proxy_result caches now domain tc (resp, error)).resp ≡ resp)
        × ((handle_proxy_result caches now domain tc (resp, error)).error ≡ error)
  unfolding handle_proxy_result
  handle_proxy_result-accepted now tc resp error = elim (Bool-cases (is_proxy_fault resp error)) [
    | inl q ↦ rw q (refl, refl, refl)
    | inr q ↦ rw q (refl, refl, refl)
  ]

  attempt-accepted :
      (k : ℕ) (tc : TrackedClient caches)
      → (attempt caches net k domain tc).accepted ≡ true
      → is_proxy_fault (attempt caches net k domain tc).resp (attempt caches net k domain tc).error
        ≡ false
  unfolding attempt
  attempt-accepted k tc h =
      let r = net.reply k tc.client tc.proxy_url in
      let a = handle_proxy_result-accepted (net.recorded_at k) tc r.0 r.1 in
      rw (a.1, a.2) (a.0 ∙ ap not h)

  attempt-Serves :
      (k : ℕ) (tc : TrackedClient caches)
      → Serves tc
      → (attempt caches net k domain tc).accepted ≡ true
  unfolding attempt
  attempt-Serves k tc s =
      let r = net.reply k tc.client tc.proxy_url in
      let a = handle_proxy_result-accepted (net.recorded_at k) tc r.0 r.1 in
      ground (arith, a.0, s.no_fault k)

  module _ (id : Text) (sticky_idx : Option ℕ) (sessions : caches.Sessions) (ttl j : ℕ) where
    -- The client stands at index j, which is among the indices of the m rounds that are left.
    record Ahead (m c : ℕ) (cs : List (TrackedClient caches)) (tc : TrackedClient caches)
        : Type 0 where
      small : c + m < 2 ^ 32
      there : get_elem? cs j ≡ some tc
      turn : ℕ
      soon : turn < m
      index : (c + offset (length cs) + turn) % length cs ≡ j

    Ahead-turn :
        (m c t : ℕ) (cs ds : List (TrackedClient caches)) (tc : TrackedClient caches)
        → c + suc m < 2 ^ 32
        → length ds ≡ length cs
        → get_elem? ds j ≡ some tc
        → t < suc m
        → (c + offset (length cs) + t) % length cs ≡ j
        → (c + offset (length cs)) % length cs ≢ j
        → Ahead m (c + 1) ds tc
    Ahead-turn m c zero cs ds tc small len there soon index moved =
        let e : c + offset (length cs) + 0 ≡ c + offset (length cs) = omega arith in
        absurd (moved (ap (λ k. k % length cs) (sym e) ∙ index))
    Ahead-turn m c (suc t) cs ds tc small len there soon index moved =
        let e : c + 1 + offset (length cs) + t ≡ c + offset (length cs) + suc t = omega arith in
        record {
          small = omega arith;
          there = there;
          turn = t;
          soon = omega arith;
          index = rw len (ap (λ k. k % length cs) e ∙ index);
        }

    Goes : ℕ → (Round caches → Outcome caches) → TrackedClient caches → Type 0
    Goes m rest tc = (r : Round caches) → Ahead m r.current r.clients tc → IsServed caches (rest r)

    visit_self :
        (k i next : ℕ) (tc : TrackedClient caches) (r : Round caches)
        (rest : Round caches → Outcome caches)
        → Serves tc
        → IsServed caches
            (visit caches net domain id sticky_idx sessions ttl k i next (some tc) r rest)
    visit_self k i next tc r rest s =
        let ok = attempt-Serves k tc s in
        rw (s.available k, s.warm k, ok) (refl, attempt-accepted k tc ok)

    module _ (m : ℕ) (rest : Round caches → Outcome caches) (tc : TrackedClient caches)
        (goes : Goes m rest tc) (r : Round caches)
        (ahead : Ahead (suc m) r.current r.clients tc) where
      abbrev turned : ℕ
      turned = (r.current + offset (length r.clients)) % length r.clients

      go_on :
          (r' : Round caches)
          → r'.current ≡ r.current + 1
          → length r'.clients ≡ length r.clients
          → get_elem? r'.clients j ≡ some tc
          → turned ≢ j
          → IsServed caches (rest r')
      unfolding Goes
      go_on r' ec len there moved = goes r' (
          rw ec (
            Ahead-turn m r.current ahead.turn r.clients r'.clients tc ahead.small len there
              ahead.soon ahead.index moved))

      visit_other :
          (k i : ℕ) (c : TrackedClient caches)
          → get_elem? r.clients i ≡ some c
          → i ≢ j
          → turned ≢ j
          → IsServed caches (
              visit caches net domain id sticky_idx sessions ttl k i
                (r.current + 1)
                (some c)
                r
                rest)
      visit_other k i c e away moved =
          elim (Bool-cases (is_available (net.checked_at k) c.tracker)) [
            | inr u ↦ rw u (go_on _ refl refl ahead.there moved)
            | inl u ↦ elim (Bool-cases (is_domain_cooled_down caches (net.checked_at k) domain c)) [
              | inl w ↦ rw (u, w) (go_on _ refl refl ahead.there moved)
              | inr w ↦
                  let t = attempt caches net k domain c in
                  elim (Bool-cases t.accepted) [
                    | inl a ↦ rw (u, w, a) (refl, attempt-accepted k c a)
                    | inr a ↦
                        rw (u, w, a)
                          (go_on _ refl (length-set r.clients i t.client)
                            (get_elem?-set_ne r.clients t.client away ∙ ahead.there) moved)
                  ]
            ]
          ]

      round-Serves :
          (k : ℕ)
          → Serves tc
          → is_sticky caches net domain id sticky_idx sessions ttl j ≡ false
          → IsServed caches (
              round caches net domain id sticky_idx sessions ttl k
                (next_index (length r.clients) r.current)
                r
                rest)
      round-Serves k s single =
          let below : turned < length r.clients =
            mod-lt _ (omega (arith, get_elem?-lt r.clients j tc ahead.there)) in
          let (c, ec) = at_index r.clients turned below in
          rw (next_index-eq (length r.clients) r.current (omega (arith, ahead.small)))
            (elim (Bool-cases (turned == j)) [
              | inl e ↦
                  let same = (==_iff turned j).0 e in
                  rw
                    (
                      ap (is_sticky caches net domain id sticky_idx sessions ttl) same ∙ single,
                      ap (get_elem? r.clients) same ∙ ahead.there,
                    )
                    (visit_self k turned (r.current + 1) tc r rest s)
              | inr e ↦
                  let moved : turned ≢ j = λ same. absurd (cc (e, (==_iff turned j).1 same)) in
                  elim (Bool-cases
                    (is_sticky caches net domain id sticky_idx sessions ttl turned)) [
                      | inl q ↦ rw q (go_on _ refl refl ahead.there moved)
                      | inr q ↦ rw (q, ec) (visit_other k turned c ec moved moved)
                    ]
            ])

    rounds-Serves :
        (m k : ℕ) (tc : TrackedClient caches)
        → Serves tc
        → is_sticky caches net domain id sticky_idx sessions ttl j ≡ false
        → Goes m (rounds caches net domain id sticky_idx sessions ttl m k) tc
    unfolding rounds Goes
    rounds-Serves zero k tc s single r ahead = absurd (omega (arith, ahead.soon))
    rounds-Serves (suc m) k tc s single r ahead =
        round-Serves m (rounds caches net domain id sticky_idx sessions ttl m (suc k)) tc
          (rounds-Serves m (suc k) tc s single) r ahead k s single

    Ahead-set :
        (m c i : ℕ) (cs : List (TrackedClient caches)) (tc x : TrackedClient caches)
        → i ≢ j
        → Ahead m c cs tc
        → Ahead m c (set cs i x) tc
    Ahead-set m c i cs tc x away a = record {
      small = a.small;
      there = get_elem?-set_ne cs x away ∙ a.there;
      turn = a.turn;
      soon = a.soon;
      index = rw (length-set cs i x) a.index;
    }

    call_sticky-Serves :
        (m s : ℕ) (c tc : TrackedClient caches) (r : Round caches)
        (rest : Round caches → Outcome caches)
        → Goes m rest tc
        → Ahead m r.current r.clients tc
        → s ≢ j
        → IsServed caches (call_sticky caches net domain sessions s (some c) r rest)
    unfolding Goes
    call_sticky-Serves m s c tc r rest goes ahead away =
        elim (Bool-cases (can_serve caches net 0 domain c)) [
          | inr u ↦ rw u (goes r ahead)
          | inl u ↦
              let t = attempt caches net 0 domain c in
              elim (Bool-cases t.accepted) [
                | inl a ↦ rw (u, a) (refl, attempt-accepted 0 c a)
                | inr a ↦
                    rw (u, a) (goes _ (Ahead-set m r.current s r.clients tc t.client away ahead))
              ]
        ]

    sticky_first-Serves :
        (m : ℕ) (tc : TrackedClient caches) (r : Round caches)
        (rest : Round caches → Outcome caches)
        → Serves tc
        → (is_sticky caches net domain id sticky_idx sessions ttl j ≡ false → Goes m rest tc)
        → Ahead m r.current r.clients tc
        → (o : Option ℕ) → sticky_idx ≡ o
        → IsServed caches (sticky_first caches net domain sessions o r rest)
    unfolding Goes
    sticky_first-Serves m tc r rest serves goes ahead none e = goes (rw e refl) r ahead
    sticky_first-Serves m tc r rest serves goes ahead (some s) e = elim (Bool-cases (j == s)) [
      | inl q ↦
          let at_s : get_elem? r.clients s ≡ some tc =
            ap (get_elem? r.clients) (sym ((==_iff j s).0 q)) ∙ ahead.there in
          let ok = attempt-Serves 0 tc serves in
          rw (at_s, serves.available 0, serves.warm 0, ok) (refl, attempt-accepted 0 tc ok)
      | inr q ↦
          let away : s ≢ j = λ same. absurd (cc (q, (==_iff j s).1 (sym same))) in
          elim (Option-cases (get_elem? r.clients s)) [
            | inl z ↦ rw z (goes (rw e q) r ahead)
            | inr (c, z) ↦ rw z (call_sticky-Serves m s c tc r rest (goes (rw e q)) ahead away)
          ]
    ]

-- When one client of the pool is available at each attempt, is not cooled down for the domain of the
-- request and never replies with a fault, Do serves the request, with a session or without, whatever
-- the other clients do: it does not panic, and what it returns is no fault. The counter must not wrap
-- around during the call.
pub rotator_do-Serves :
    (caches : Caches) (net : Net) (req : Request) (r : Rotator caches) (j : ℕ)
    (tc : TrackedClient caches)
    → get_elem? r.clients j ≡ some tc
    → Serves caches net req.host tc
    → r.current + length r.clients < 2 ^ 32
    → IsServed caches (rotator_do caches net req r).0
unfolding rotator_do
rotator_do-Serves caches net req r j tc e s small =
    let below = get_elem?-lt r.clients j tc e in
    let some_client : (length r.clients == 0) ≡ false = ground arith in
    let id = session_of caches req r in
    let found = get_sticky_client_index caches (net.checked_at 0) id r.session_ttl r.sessions in
    let (t, soon, index) =
      reaches (r.current + offset (length r.clients)) (length r.clients) j below in
    rw some_client (
      sticky_first-Serves caches net req.host id found.0 found.1 r.session_ttl j (length r.clients)
        tc _ _ s
        (rounds-Serves caches net req.host id found.0 found.1 r.session_ttl j (length r.clients) 1
          tc s)
        (record { small = small; there = e; turn = t; soon = soon; index = index }) found.0 refl)
