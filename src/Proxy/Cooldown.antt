-- ===== src/Proxy/Cooldown.antt =====
-- proxy/proxy.go: a client through which a domain answered 403 is left alone for that domain.
use aoni.Base.{
  ℕ, suc, ◌+◌, ◌≤◌, ◌<◌, ◌==◌, ◌≡◌, ◌≢◌, refl, sym, ap, ◌∙◌, inl, inr, true, List, Option, none,
  some, arith, length, get_elem?, All, Bool-cases, get_elem?-set_self, get_elem?-set_ne,
}
use aoni.Base.Text.{Text}
use aoni.Balancer.Order.Occurs.{Occurs, get_elem?-lt}
use aoni.Proxy.Pool.{
  Caches, IsCache, Error, Response, Request, TrackedClient, Rotator, is_domain_cooled_down,
  put_domain_in_cooldown,
}
use aoni.Proxy.Rotation.{
  Net, is_proxy_fault, ban_duration, is_forbidden, handle_proxy_result, attempt, can_serve, Outcome,
  rotator_do,
}
use aoni.Proxy.Rule.{IsKept, rotator_do-rule}

module _ (caches : Caches) (net : Net) (domain : Text) where
  -- The client was given a cooldown for the domain when the k-th attempt was recorded.
  record WasBanned (k : ℕ) (tc : TrackedClient caches) : Type 0 where
    before : caches.Cooldowns
    now :
        tc.domain_cooldowns
        ≡ some (caches.put_domain (net.recorded_at k) domain ban_duration before)

  record Banned (o : Outcome caches) : Type 0 where
    index : ℕ
    number : ℕ
    client : TrackedClient caches
    stands : get_elem? o.clients index ≡ some client
    banned : WasBanned number client
    was_sent : Occurs index o.sent

  handle_proxy_result-forbidden :
      (k : ℕ) (tc : TrackedClient caches) (resp : Option Response) (error : Option Error)
      → is_forbidden resp error ≡ true
      → (handle_proxy_result caches (net.recorded_at k) domain tc (resp, error)).accepted ≡ true
      → WasBanned k (handle_proxy_result caches (net.recorded_at k) domain tc (resp, error)).client
  unfolding handle_proxy_result put_domain_in_cooldown
  handle_proxy_result-forbidden k tc resp error f a =
      elim (Bool-cases (is_proxy_fault resp error)) [
        | inl q ↦ absurd (ground arith)
        | inr q ↦ rw (q, f) (record { before = _; now = refl })
      ]

  handle_proxy_result-resp :
      (now : ℕ) (tc : TrackedClient caches) (resp : Option Response) (error : Option Error)
      → ((handle_proxy_result caches now domain tc (resp, error)).resp ≡ resp)
        × ((handle_proxy_result caches now domain tc (resp, error)).error ≡ error)
  unfolding handle_proxy_result
  handle_proxy_result-resp now tc resp error = elim (Bool-cases (is_proxy_fault resp error)) [
    | inl q ↦ rw q (refl, refl)
    | inr q ↦ rw q (refl, refl)
  ]

  attempt-forbidden :
      (k : ℕ) (tc : TrackedClient caches)
      → is_forbidden (attempt caches net k domain tc).resp (attempt caches net k domain tc).error
        ≡ true
      → (attempt caches net k domain tc).accepted ≡ true
      → WasBanned k (attempt caches net k domain tc).client
  unfolding attempt
  attempt-forbidden k tc f a =
      let r = net.reply k tc.client tc.proxy_url in
      let e = handle_proxy_result-resp (net.recorded_at k) tc r.0 r.1 in
      handle_proxy_result-forbidden k tc r.0 r.1 (rw (e.0, e.1) at f) a

  abbrev BannedIf : Outcome caches → Type 0
  BannedIf o = is_forbidden o.resp o.error ≡ true → Banned o

  BannedIf-kept : IsKept caches net domain (λ cs. Unit {0}) (λ i s. Unit {0}) BannedIf
  BannedIf-kept = record {
    accepts = λ k i c cs s n q e can a u f. record {
      index = i;
      number = k;
      client = (attempt caches net k domain c).client;
      stands = get_elem?-set_self cs i _ (get_elem?-lt cs i c e);
      banned = attempt-forbidden k c f a;
      was_sent = (0, refl);
    };
    fails = λ k i c cs q e can a. (
      tt,
      λ o p f.
          let b = p f in
          record {
            index = b.index;
            number = b.number;
            client = b.client;
            stands = b.stands;
            banned = b.banned;
            was_sent = (suc b.was_sent.0, b.was_sent.1);
          },
    );
    ends = λ cs s n e q f. absurd (cc f);
    breaks = λ cs s n q f. absurd (cc f);
  }

  module _ (j : ℕ) (tc : TrackedClient caches)
      (cold : (k : ℕ) → is_domain_cooled_down caches (net.checked_at k) domain tc ≡ true) where
    abbrev Stands : List (TrackedClient caches) → Type 0
    Stands cs = get_elem? cs j ≡ some tc

    abbrev Spared : Outcome caches → Type 0
    Spared o = All (λ i. i ≢ j) o.sent

    other_client :
        (k i : ℕ) (c : TrackedClient caches) (cs : List (TrackedClient caches))
        → Stands cs
        → get_elem? cs i ≡ some c
        → can_serve caches net k domain c ≡ true
        → i ≢ j
    other_client k i c cs q e can same =
        let both : some c ≡ some tc = sym e ∙ ap (get_elem? cs) same ∙ q in
        let cc_tc : c ≡ tc = cc in
        let cold_c : is_domain_cooled_down caches (net.checked_at k) domain c ≡ true =
          ap (is_domain_cooled_down caches (net.checked_at k) domain) cc_tc ∙ cold k in
        ground arith

    Spared-kept : IsKept caches net domain Stands (λ i s. Unit {0}) Spared
    Spared-kept = record {
      accepts = λ k i c cs s n q e can a u. (other_client k i c cs q e can, tt);
      fails = λ k i c cs q e can a. (
        get_elem?-set_ne cs _ (other_client k i c cs q e can) ∙ q,
        λ o p. (other_client k i c cs q e can, p),
      );
      ends = λ cs s n e q. tt;
      breaks = λ cs s n q. tt;
    }

WasBanned-cold :
    (caches : Caches) (law : IsCache caches) (at now : ℕ) (domain : Text)
    (tc : TrackedClient caches) (before : caches.Cooldowns)
    → tc.domain_cooldowns ≡ some (caches.put_domain at domain ban_duration before)
    → at ≤ now
    → now < at + ban_duration
    → is_domain_cooled_down caches now domain tc ≡ true
unfolding is_domain_cooled_down
WasBanned-cold caches law at now domain tc before e le lt =
    rw e (law.has-put now at domain ban_duration before le lt)

rotator_do-clients :
    (caches : Caches) (net : Net) (req : Request) (r : Rotator caches)
    → (rotator_do caches net req r).1.clients ≡ (rotator_do caches net req r).0.clients
unfolding rotator_do
rotator_do-clients caches net req r = elim (Bool-cases (length r.clients == 0)) [
  | inl h ↦ rw h refl
  | inr h ↦ rw h refl
]

-- When Do returns a response with the status 403 and no error, there is a client that the request was
-- sent to and that the next Do for the same domain sends nothing to, as long as that one looks at its
-- clients within ten minutes after the outcomes of the first one were recorded. An entry of the cache
-- is taken to be found as long as it lives.
pub rotator_do-forbidden :
    (caches : Caches) (law : IsCache caches) (net later : Net) (req next : Request)
    (r : Rotator caches) (resp : Response)
    → (rotator_do caches net req r).0.resp ≡ some resp
    → (rotator_do caches net req r).0.error ≡ none
    → resp.status_code ≡ 403
    → next.host ≡ req.host
    → ((m k : ℕ)
        → (net.recorded_at m ≤ later.checked_at k)
          × (later.checked_at k < net.recorded_at m + ban_duration))
    → (i : ℕ) × Occurs i (rotator_do caches net req r).0.sent
      × All (λ j. j ≢ i) (rotator_do caches later next (rotator_do caches net req r).1).0.sent
rotator_do-forbidden caches law net later req next r resp er ee es eh window =
    let out = (rotator_do caches net req r).0 in
    let f : is_forbidden out.resp out.error ≡ true = rw (er, ee) (ground arith) in
    let b =
      rotator_do-rule caches net req _ _ _ (BannedIf-kept caches net req.host) r (λ k i s. tt)
        (λ i s. tt) tt f in
    let stands = ap (λ cs. get_elem? cs b.index) (rotator_do-clients caches net req r) ∙ b.stands in
    let cold : (k : ℕ)
        → is_domain_cooled_down caches (later.checked_at k) next.host b.client ≡ true =
      λ k. rw eh (
        WasBanned-cold caches law (net.recorded_at b.number) (later.checked_at k) req.host b.client
          b.banned.before b.banned.now (window b.number k).0 (window b.number k).1) in
    (
      b.index,
      b.was_sent,
      rotator_do-rule caches later next _ _ _
          (Spared-kept caches later next.host b.index b.client cold) _ (λ k i s. tt) (λ i s. tt)
          stands,
    )
