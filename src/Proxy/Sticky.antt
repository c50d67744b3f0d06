-- ===== src/Proxy/Sticky.antt =====
-- proxy/proxy.go: a session stays with the client that served it.
use aoni.Base.{
  ℕ, ◌+◌, ◌≤◌, ◌<◌, ◌≡◌, refl, ap, ◌∙◌, inl, inr, true, false, List, [], ◌∷◌, Option, none, some,
  arith, ◌==◌, length, get_elem?, Bool-cases,
}
use aoni.Base.Text.{Text, is_empty}
use aoni.Balancer.Order.Occurs.{get_elem?-lt}
use aoni.Proxy.Pool.{Caches, IsCache, Response, Request, TrackedClient, Rotator}
use aoni.Proxy.Rotation.{
  Net, attempt, can_serve, Outcome, Round, call_sticky, sticky_first, session_of,
  get_sticky_client_index, rotator_do,
}
use aoni.Proxy.Rule.{IsKept, rotator_do-rule}

abbrev pub last : List ℕ → Option ℕ
last [] = none
last (i ∷ is) = elim (last is) [ none ↦ some i | some j ↦ some j ]

last-cons : (i j : ℕ) (is : List ℕ) → last is ≡ some j → last (i ∷ is) ≡ some j
last-cons i j is h = rw h refl

module _ (caches : Caches) (net : Net) (domain : Text) (at : ℕ) (id : Text) where
  abbrev Recalls : ℕ → caches.Sessions → Type 0
  Recalls i s = caches.get_session at id s ≡ some i

  -- A response was returned by the client that was called last, and the session names it.
  abbrev IsRecalled : Outcome caches → Type 0
  IsRecalled o =
      (resp : Response)
      → o.resp ≡ some resp
      → (i : ℕ) × (last o.sent ≡ some i) × Recalls i o.sessions

  IsRecalled-kept : IsKept caches net domain (λ cs. Unit {0}) Recalls IsRecalled
  IsRecalled-kept = record {
    accepts = λ k i c cs s n q e can a h resp er. (i, refl, h);
    fails = λ k i c cs q e can a.
        (tt, λ o p resp er. let (j, l, h) = p resp er in (j, last-cons i j o.sent l, h));
    ends = λ cs s n e q resp er. absurd (cc er);
    breaks = λ cs s n q resp er. absurd (cc er);
  }

rotator_do-session :
    (caches : Caches) (net : Net) (req : Request) (r : Rotator caches)
    → ((rotator_do caches net req r).1.sticky ≡ r.sticky)
      × ((resp : Response)
          → (rotator_do caches net req r).0.resp ≡ some resp
          → (rotator_do caches net req r).1.sessions ≡ (rotator_do caches net req r).0.sessions)
unfolding rotator_do
rotator_do-session caches net req r = elim (Bool-cases (length r.clients == 0)) [
  | inl h ↦ rw h (refl, λ resp e. absurd (cc e))
  | inr h ↦ rw h (refl, λ resp e. refl)
]

call_sticky-first :
    (caches : Caches) (net : Net) (domain : Text) (sessions : caches.Sessions) (i : ℕ)
    (c : TrackedClient caches) (r : Round caches) (rest : Round caches → Outcome caches)
    → can_serve caches net 0 domain c ≡ true
    → get_elem? (call_sticky caches net domain sessions i (some c) r rest).sent 0 ≡ some i
call_sticky-first caches net domain sessions i c r rest can =
    elim (Bool-cases (attempt caches net 0 domain c).accepted) [
      | inl a ↦ rw (can, a) refl
      | inr a ↦ rw (can, a) refl
    ]

sticky_first-first :
    (caches : Caches) (net : Net) (domain : Text) (sessions : caches.Sessions) (i : ℕ)
    (c : TrackedClient caches) (o : Option ℕ) (r : Round caches)
    (rest : Round caches → Outcome caches)
    → o ≡ some i
    → get_elem? r.clients i ≡ some c
    → can_serve caches net 0 domain c ≡ true
    → get_elem? (sticky_first caches net domain sessions o r rest).sent 0 ≡ some i
sticky_first-first caches net domain sessions i c o r rest eo there can =
    rw (eo, there) (call_sticky-first caches net domain sessions i c r rest can)

found-recalled :
    (caches : Caches) (now : ℕ) (id : Text) (ttl : ℕ) (sessions : caches.Sessions) (i : ℕ)
    → is_empty id ≡ false
    → caches.get_session now id sessions ≡ some i
    → (get_sticky_client_index caches now id ttl sessions).0 ≡ some i
unfolding get_sticky_client_index
found-recalled caches now id ttl sessions i named recall = rw (named, recall) refl

recalled_first :
    (caches : Caches) (net : Net) (req : Request) (r : Rotator caches) (i : ℕ)
    (c : TrackedClient caches)
    → r.sticky ≡ true
    → is_empty req.key ≡ false
    → caches.get_session (net.checked_at 0) req.key r.sessions ≡ some i
    → get_elem? r.clients i ≡ some c
    → can_serve caches net 0 req.host c ≡ true
    → get_elem? (rotator_do caches net req r).0.sent 0 ≡ some i
unfolding rotator_do
recalled_first caches net req r i c st named recall there can =
    let some_client : (length r.clients == 0) ≡ false =
      ground (arith, get_elem?-lt r.clients i c there) in
    let id : session_of caches req r ≡ req.key = rw st refl in
    let found =
      found-recalled caches (net.checked_at 0) (session_of caches req r) r.session_ttl r.sessions i
        (rw id named) (rw id recall) in
    rw some_client (sticky_first-first caches net req.host _ i c _ _ _ found there can)

-- When Do returns a response to a request with a session, the session stays with the client that was
-- called last: the next Do for the session calls it first, if it is available then and not cooled
-- down for that request's domain, and if that Do begins before the session has lived for its time.
-- An entry of the cache is taken to be found as long as it lives.
pub rotator_do-sticky :
    (caches : Caches) (law : IsCache caches) (net later : Net) (req next : Request)
    (r : Rotator caches) (resp : Response) (i : ℕ) (c : TrackedClient caches)
    → r.sticky ≡ true
    → is_empty req.key ≡ false
    → next.key ≡ req.key
    → (rotator_do caches net req r).0.resp ≡ some resp
    → last (rotator_do caches net req r).0.sent ≡ some i
    → ((k : ℕ)
        → (net.recorded_at k ≤ later.checked_at 0)
          × (later.checked_at 0 < net.recorded_at k + r.session_ttl))
    → net.checked_at 0 ≤ later.checked_at 0
    → later.checked_at 0 < net.checked_at 0 + r.session_ttl
    → get_elem? (rotator_do caches net req r).1.clients i ≡ some c
    → can_serve caches later 0 next.host c ≡ true
    → get_elem? (rotator_do caches later next (rotator_do caches net req r).1).0.sent 0 ≡ some i
rotator_do-sticky caches law net later req next r resp i c st named same er el recorded lo hi there
      can =
    let at = later.checked_at 0 in
    let id : session_of caches req r ≡ req.key = rw st refl in
    let (j, l, h) =
      rotator_do-rule caches net req _ _ _ (IsRecalled-kept caches net req.host at req.key) r
        (λ k i s.
          rw (id, named)
            (law.get-set at (net.recorded_at k) req.key i r.session_ttl s (recorded k).0
              (recorded k).1))
        (λ i s. rw id (law.get-set at (net.checked_at 0) req.key i r.session_ttl s lo hi)) tt resp
        er in
    let same_client : j ≡ i = ground arith in
    let kept = rotator_do-session caches net req r in
    recalled_first caches later next (rotator_do caches net req r).1 i c (kept.0 ∙ st)
      (rw same named) (rw (same, kept.1 resp er) (h ∙ ap some same_client)) there can
