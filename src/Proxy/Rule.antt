-- ===== src/Proxy/Rule.antt =====
-- proxy/proxy.go: the rule by which a property of the clients is carried through the attempts of Do.
use aoni.Base.{
  ℕ, zero, suc, ◌≡◌, refl, inl, inr, true, false, List, [], ◌∷◌, Option, none, some, arith, ◌==◌,
  length, get_elem?, set, Bool-cases, Option-cases,
}
use aoni.Base.Text.{Text, is_empty}
use aoni.Health.{is_available}
use aoni.Proxy.Pool.{
  Caches, Error, no_proxy_clients, Request, TrackedClient, Rotator, is_domain_cooled_down,
}
use aoni.Proxy.Rotation.{
  Net, attempt, can_serve, Outcome, save_session, accept, Round, is_sticky, visit, round, rounds,
  call_sticky, sticky_first, session_of, get_sticky_client_index, rotator_do,
}

module _ (caches : Caches) (net : Net) (domain : Text) where
  abbrev pub failed : List (TrackedClient caches) → caches.Sessions → ℕ → Error → Outcome caches
  failed cs sessions n e = record {
    resp = none;
    error = some e;
    clients = cs;
    sessions = sessions;
    current = n;
    sent = [];
    panicked = false;
  }

  abbrev pub panic : List (TrackedClient caches) → caches.Sessions → ℕ → Outcome caches
  panic cs sessions n = record {
    resp = none;
    error = none;
    clients = cs;
    sessions = sessions;
    current = n;
    sent = [];
    panicked = true;
  }

  -- Q holds of the clients before each attempt, R of the client that answers with the sessions that
  -- Do leaves then, and P of what Do returns.
  pub record IsKept (Q : List (TrackedClient caches) → Type 0) (R : ℕ → caches.Sessions → Type 0)
      (P : Outcome caches → Type 0) : Type 0 where
    pub accepts :
        (k i : ℕ) (c : TrackedClient caches) (cs : List (TrackedClient caches))
        (s : caches.Sessions) (n : ℕ)
        → Q cs
        → get_elem? cs i ≡ some c
        → can_serve caches net k domain c ≡ true
        → (attempt caches net k domain c).accepted ≡ true
        → R i s
        → P (accept caches (attempt caches net k domain c) cs i s n)
    pub fails :
        (k i : ℕ) (c : TrackedClient caches) (cs : List (TrackedClient caches))
        → Q cs
        → get_elem? cs i ≡ some c
        → can_serve caches net k domain c ≡ true
        → (attempt caches net k domain c).accepted ≡ false
        → Q (set cs i (attempt caches net k domain c).client)
          × ((o : Outcome caches) → P o → P (record o { sent = i ∷ o.sent }))
    pub ends :
        (cs : List (TrackedClient caches)) (s : caches.Sessions) (n : ℕ) (e : Error)
        → Q cs
        → P (failed cs s n e)
    pub breaks :
        (cs : List (TrackedClient caches)) (s : caches.Sessions) (n : ℕ) → Q cs → P (panic cs s n)

  module _ (Q : List (TrackedClient caches) → Type 0) (R : ℕ → caches.Sessions → Type 0)
      (P : Outcome caches → Type 0) (kept : IsKept Q R P) (id : Text) (sticky_idx : Option ℕ)
      (sessions : caches.Sessions) (ttl : ℕ)
      (saves : (k i : ℕ) → R i (save_session caches (net.recorded_at k) id i ttl sessions))
      (sticks : (i : ℕ) → sticky_idx ≡ some i → R i sessions) where
    Goes : (Round caches → Outcome caches) → Type 0
    Goes rest = (r : Round caches) → Q r.clients → P (rest r)

    visit-rule :
        (k i next : ℕ) (o : Option (TrackedClient caches)) (r : Round caches)
        (rest : Round caches → Outcome caches)
        → Goes rest
        → Q r.clients
        → get_elem? r.clients i ≡ o
        → P (visit caches net domain id sticky_idx sessions ttl k i next o r rest)
    unfolding Goes
    visit-rule k i next none r rest goes q e = kept.breaks r.clients sessions next q
    visit-rule k i next (some c) r rest goes q e =
        elim (Bool-cases (is_available (net.checked_at k) c.tracker)) [
          | inr u ↦ rw u (goes _ q)
          | inl u ↦ elim (Bool-cases (is_domain_cooled_down caches (net.checked_at k) domain c)) [
            | inl w ↦ rw (u, w) (goes _ q)
            | inr w ↦
                let can : can_serve caches net k domain c ≡ true = rw (u, w) refl in
                let t = attempt caches net k domain c in
                elim (Bool-cases t.accepted) [
                  | inl a ↦ rw (u, w, a) (kept.accepts k i c r.clients _ next q e can a (saves k i))
                  | inr a ↦
                      let f = kept.fails k i c r.clients q e can a in
                      rw (u, w, a) (f.1 _ (goes _ f.0))
                ]
          ]
        ]

    round-rule :
        (k : ℕ) (p : ℕ × ℕ) (r : Round caches) (rest : Round caches → Outcome caches)
        → Goes rest
        → Q r.clients
        → P (round caches net domain id sticky_idx sessions ttl k p r rest)
    unfolding Goes
    round-rule k (i, next) r rest goes q =
        elim (Bool-cases (is_sticky caches net domain id sticky_idx sessions ttl i)) [
          | inl h ↦ rw h (goes _ q)
          | inr h ↦ rw h (visit-rule k i next _ r rest goes q refl)
        ]

    rounds-rule : (m k : ℕ) → Goes (rounds caches net domain id sticky_idx sessions ttl m k)
    unfolding rounds Goes
    rounds-rule zero k r q = kept.ends r.clients sessions r.current _ q
    rounds-rule (suc m) k r q = round-rule k _ r _ (rounds-rule m (suc k)) q

    sticky_first-rule :
        (o : Option ℕ) (r : Round caches) (rest : Round caches → Outcome caches)
        → Goes rest
        → Q r.clients
        → sticky_idx ≡ o
        → P (sticky_first caches net domain sessions o r rest)
    unfolding Goes
    sticky_first-rule none r rest goes q here = goes r q
    sticky_first-rule (some s) r rest goes q here = elim (Option-cases (get_elem? r.clients s)) [
      | inl z ↦ rw z (goes r q)
      | inr (c, z) ↦ rw z (called c z)
    ]
      where
        called :
            (c : TrackedClient caches)
            → get_elem? r.clients s ≡ some c
            → P (call_sticky caches net domain sessions s (some c) r rest)
        called c z = elim (Bool-cases (can_serve caches net 0 domain c)) [
          | inr u ↦ rw u (goes r q)
          | inl u ↦
              let t = attempt caches net 0 domain c in
              elim (Bool-cases t.accepted) [
                | inl a ↦
                    rw (u, a) (kept.accepts 0 s c r.clients _ r.current q z u a (sticks s here))
                | inr a ↦
                    let f = kept.fails 0 s c r.clients q z u a in rw (u, a) (f.1 _ (goes _ f.0))
              ]
        ]

get_sticky_client_index-sticks :
    (caches : Caches) (now : ℕ) (id : Text) (ttl : ℕ) (sessions : caches.Sessions)
    (R : ℕ → caches.Sessions → Type 0)
    → ((i : ℕ) → R i (caches.set_session now id i ttl sessions))
    → (i : ℕ) → (get_sticky_client_index caches now id ttl sessions).0 ≡ some i
    → R i (get_sticky_client_index caches now id ttl sessions).1
unfolding get_sticky_client_index
get_sticky_client_index-sticks caches now id ttl sessions R h i e =
    elim (Bool-cases (is_empty id)) [
      | inl q ↦ absurd (ground arith)
      | inr q ↦ elim (Option-cases (caches.get_session now id sessions)) [
        | inl z ↦ absurd (ground arith)
        | inr (j, z) ↦ let same : j ≡ i = ground arith in rw (q, z, same) (h i)
      ]
    ]

pub rotator_do-rule :
    (caches : Caches) (net : Net) (req : Request) (Q : List (TrackedClient caches) → Type 0)
    (R : ℕ → caches.Sessions → Type 0) (P : Outcome caches → Type 0)
    → IsKept caches net req.host Q R P
    → (r : Rotator caches)
    → ((k i : ℕ) (s : caches.Sessions)
        → R i (save_session caches (net.recorded_at k) (session_of caches req r) i r.session_ttl s))
    → ((i : ℕ) (s : caches.Sessions)
        → R i (caches.set_session (net.checked_at 0) (session_of caches req r) i r.session_ttl s))
    → Q r.clients
    → P (rotator_do caches net req r).0
unfolding rotator_do
rotator_do-rule caches net req Q R P kept r saves sets q =
    elim (Bool-cases (length r.clients == 0)) [
      | inl h ↦ rw h (kept.ends r.clients r.sessions r.current no_proxy_clients q)
      | inr h ↦
          let id = session_of caches req r in
          let found =
            get_sticky_client_index caches (net.checked_at 0) id r.session_ttl r.sessions in
          let sticks =
            get_sticky_client_index-sticks caches (net.checked_at 0) id r.session_ttl r.sessions R
              (λ i. sets i r.sessions) in
          let save = λ (k i : ℕ). saves k i found.1 in
          rw h (
            sticky_first-rule caches net req.host Q R P kept id found.0 found.1 r.session_ttl save
              sticks found.0 _ _
              (rounds-rule caches net req.host Q R P kept id found.0 found.1 r.session_ttl save
                sticks (length r.clients) 1)
              q refl)
    ]
