-- ===== src/Circuit/Isolation.antt =====
-- middleware/resilience.go: the hosts do not disturb each other.
use aoni.Base.{
  ◌≡◌, ◌≢◌, refl, sym, ap, ◌∙◌, inl, inr, Bool, true, false, List, [], ◌∷◌, Option, some,
  if◌then◌else◌, Bool-cases, Option-cases,
}
use aoni.Base.Text.{Text, text_eq, eq_of_text_eq, text_eq_iff}
use aoni.Circuit.{
  Answer, Library, IsMap, Call, Result, CircuitBreaker, get_breaker, parse_host_from_url, guarded,
  circuit_break, circuit_break_all, breaker_of,
}

module _ (lib : Library) where
  abbrev pub is_to : Text → Call → Bool
  is_to h call = text_eq (parse_host_from_url lib call.url) h

  -- The calls whose URL has the host h, in their order.
  abbrev pub calls_to : Text → List Call → List Call
  calls_to h [] = []
  calls_to h (c ∷ cs) = if is_to h c then c ∷ calls_to h cs else calls_to h cs

-- The results for the host h, in their order.
abbrev pub results_of : Text → List Result → List Result
results_of h [] = []
results_of h (r ∷ rs) = if text_eq r.host h then r ∷ results_of h rs else results_of h rs

module _ (lib : Library) (condition : Option (Answer → Bool)) (map : IsMap lib) (h : Text) where
  -- The two have the same configuration and the same breaker for h.
  record Agrees (a b : CircuitBreaker lib) : Type 0 where
    same_cfg : a.cfg ≡ b.cfg
    same_breaker : lib.load h a.breakers ≡ lib.load h b.breakers

  get_breaker-same :
      (a b : CircuitBreaker lib) → Agrees a b → (get_breaker lib h a).0 ≡ (get_breaker lib h b).0
  unfolding get_breaker
  get_breaker-same a b g = elim (Option-cases (lib.load h b.breakers)) [
    | inl e ↦ rw (g.same_breaker, e) (ap (breaker_of lib) g.same_cfg)
    | inr (x, e) ↦ rw (g.same_breaker, e) refl
  ]

  get_breaker-cfg : (host : Text) (a : CircuitBreaker lib) → (get_breaker lib host a).1.cfg ≡ a.cfg
  unfolding get_breaker
  get_breaker-cfg host a = elim (Option-cases (lib.load host a.breakers)) [
    | inl e ↦ rw e refl
    | inr (x, e) ↦ rw e refl
  ]

  get_breaker-load :
      (host : Text) (a : CircuitBreaker lib)
      → h ≢ host
      → lib.load h (get_breaker lib host a).1.breakers ≡ lib.load h a.breakers
  unfolding get_breaker
  get_breaker-load host a away = elim (Option-cases (lib.load host a.breakers)) [
    | inl e ↦ rw e (map.load-put_ne h host (breaker_of lib a.cfg) a.breakers away)
    | inr (x, e) ↦ rw e refl
  ]

  -- A request to another host leaves the breaker of h as it is.
  circuit_break-other :
      (c : Call) (a : CircuitBreaker lib)
      → h ≢ parse_host_from_url lib c.url
      → Agrees (circuit_break lib condition c a).1 a
  unfolding circuit_break
  circuit_break-other c a away =
      let host = parse_host_from_url lib c.url in
      let out = guarded lib condition host c (get_breaker lib host a).0 in
      record {
        same_cfg = get_breaker-cfg host a;
        same_breaker =
            map.load-put_ne h host out.1 (get_breaker lib host a).1.breakers away
            ∙ get_breaker-load host a away;
      }

  -- A request to h has the same result in both, which then agree again.
  circuit_break-same :
      (c : Call) (a b : CircuitBreaker lib)
      → parse_host_from_url lib c.url ≡ h
      → Agrees a b
      → ((circuit_break lib condition c a).0 ≡ (circuit_break lib condition c b).0)
        × Agrees (circuit_break lib condition c a).1 (circuit_break lib condition c b).1
  unfolding circuit_break
  circuit_break-same c a b to g =
      let same = get_breaker-same a b g in
      let out : lib.Breaker → Result × lib.Breaker = guarded lib condition h c in
      rw to (
        ap (λ x. (out x).0) same,
        record {
          same_cfg = get_breaker-cfg h a ∙ g.same_cfg ∙ sym (get_breaker-cfg h b);
          same_breaker =
              map.load-put h _ _ ∙ ap (λ x. some (out x).1) same ∙ sym (map.load-put h _ _);
        },
      )

  circuit_break-host :
      (c : Call) (a : CircuitBreaker lib)
      → (circuit_break lib condition c a).0.host ≡ parse_host_from_url lib c.url
  unfolding circuit_break guarded
  circuit_break-host c a =
      let host = parse_host_from_url lib c.url in
      elim (Option-cases (lib.enter c.entered_at (get_breaker lib host a).0).0) [
        | inl e ↦ rw e refl
        | inr (x, e) ↦ rw e refl
      ]

  all-Agrees :
      (cs : List Call) (a b : CircuitBreaker lib)
      → Agrees a b
      → results_of h (circuit_break_all lib condition cs a)
        ≡ circuit_break_all lib condition (calls_to lib h cs) b
  unfolding circuit_break_all
  all-Agrees [] a b g = refl
  all-Agrees (c ∷ cs) a b g =
      let first = circuit_break lib condition c a in
      elim (Bool-cases (is_to lib h c)) [
        | inl e ↦
            let (same, next) = circuit_break-same c a b (eq_of_text_eq _ h e) g in
            let here : text_eq first.0.host h ≡ true =
              ap (λ x. text_eq x h) (circuit_break-host c a) ∙ e in
            rw (here, e)
              (ap (λ r. r ∷ results_of h (circuit_break_all lib condition cs first.1)) same
                ∙ ap (λ rs. (circuit_break lib condition c b).0 ∷ rs)
                    (all-Agrees cs first.1 _ next))
        | inr e ↦
            let away : h ≢ parse_host_from_url lib c.url =
              λ q. absurd (cc (e, (text_eq_iff _ h).1 (sym q))) in
            let here : text_eq first.0.host h ≡ false =
              ap (λ x. text_eq x h) (circuit_break-host c a) ∙ e in
            let o = circuit_break-other c a away in
            rw (here, e)
              (all-Agrees cs first.1 b (record {
                same_cfg = o.same_cfg ∙ g.same_cfg;
                same_breaker = o.same_breaker ∙ g.same_breaker;
              }))
      ]

-- Among any requests, those to one host have the results that they have without the others: the
-- breakers of the other hosts have no part in them.
pub circuit_break_all-isolates :
    (lib : Library) (condition : Option (Answer → Bool))
    → IsMap lib
    → (h : Text) (calls : List Call) (cb : CircuitBreaker lib)
    → results_of h (circuit_break_all lib condition calls cb)
      ≡ circuit_break_all lib condition (calls_to lib h calls) cb
circuit_break_all-isolates lib condition map h calls cb =
    all-Agrees lib condition map h calls cb cb (record { same_cfg = refl; same_breaker = refl })
