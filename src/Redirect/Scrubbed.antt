-- ===== src/Redirect/Scrubbed.antt =====
-- fast/redirect.go and fast/cookies.go: what a redirect to another host carries, and how many requests
-- are sent.
use aoni.Base.{
  ℕ, zero, suc, ◌+◌, ◌≤◌, ◌<◌, ◌≡◌, refl, ap, ◌∙◌, inl, inr, true, false, not, ◌&&◌, [], Option,
  none, some, All, arith, length, Bool-cases,
}
use aoni.Base.Int.{ℤ, pos, negsuc}
use aoni.Base.Text.{is_empty}
use aoni.Redirect.{
  Headers, del_headers, sensitive_redirect_headers, Uri, Request, Response, World,
  is_redirect_status, is_same_host, no_user, next_uri, scrub_sensitive_headers, redirect,
  apply_redirect_method_and_body, apply_cookies, extract_user_info_and_set_auth, prepare, Run,
  after_response, follow, stop, max_redirects_exceeded, cons_sent, execute_with_redirects,
  redirect_limit, is_https_downgrade, with_host, has_at,
}

-- None of the sensitive headers is there.
abbrev pub IsScrubbed : Headers → Type 0
IsScrubbed h = All (λ n. h n ≡ []) sensitive_redirect_headers

after_response-length :
    (n : ℕ) (sent : Request) (answer : Option Response) (go : Response → Run)
    → 0 < n
    → ((resp : Response) → length (go resp).sent ≤ n)
    → length (after_response sent answer go).sent ≤ n
after_response-length n sent none go room h = omega arith
after_response-length n sent (some resp) go room h =
    elim (Bool-cases (is_redirect_status resp.status_code && not (is_empty resp.location))) [
      | inl e ↦ rw (after_response, e) (h resp)
      | inr e ↦ rw (after_response, e) (omega arith)
    ]

module _ {J : Type 0} (w : World J) where
  scrub_sensitive_headers-IsScrubbed :
      (current next : Uri) (h : Headers) → IsScrubbed (scrub_sensitive_headers w current next h)
  unfolding scrub_sensitive_headers
  scrub_sensitive_headers-IsScrubbed current next h =
      elim (Bool-cases (w.is_same_domain_or_subdomain current.host_name next.host_name)) [
        | inl e ↦ rw e (scrubbed_all)
        | inr e ↦ rw e (scrubbed_all)
      ]
    where
      scrubbed_all : IsScrubbed (del_headers sensitive_redirect_headers h)
      scrubbed_all = (
        refl,
        (
          refl,
          (
            refl,
            (
              refl,
              (refl, (refl, (refl, (refl, (refl, (refl, (refl, (refl, (refl, (refl, tt)))))))))),
            ),
          ),
        ),
      )

  redirect-IsScrubbed :
      (current : Uri) (resp : Response) (req : Request)
      → is_same_host current (next_uri w current resp.location) ≡ false
      → IsScrubbed (redirect w current resp req).headers
  unfolding redirect
  redirect-IsScrubbed current resp req other =
      let next = next_uri w current resp.location in
      let scrubbed =
        scrub_sensitive_headers-IsScrubbed current next
          (with_host w next (apply_redirect_method_and_body resp.status_code req).headers) in
      elim (Bool-cases (is_https_downgrade current next)) [
        | inl e ↦ rw (other, e) scrubbed
        | inr e ↦ rw (other, e) scrubbed
      ]

  apply_cookies-IsScrubbed :
      (jar : J) (req : Request)
      → IsScrubbed req.headers
      → IsScrubbed (apply_cookies w jar req).headers
  unfolding apply_cookies
  apply_cookies-IsScrubbed jar req h = elim (Bool-cases (is_empty (w.cookie_header jar req.uri))) [
    | inl e ↦ rw e h
    | inr e ↦ rw e h
  ]

  apply_cookies-uri : (jar : J) (req : Request) → (apply_cookies w jar req).uri ≡ req.uri
  unfolding apply_cookies
  apply_cookies-uri jar req = elim (Bool-cases (is_empty (w.cookie_header jar req.uri))) [
    | inl e ↦ rw e refl
    | inr e ↦ rw e refl
  ]

  no_user-parts :
      (u : Uri) → no_user u ≡ true → (is_empty u.username ≡ true) × (has_at u.host_name ≡ false)
  no_user-parts u h = (ground arith, ground arith)

  extract-IsScrubbed :
      (req : Request)
      → no_user req.uri ≡ true
      → IsScrubbed req.headers
      → IsScrubbed (extract_user_info_and_set_auth w req).headers
  unfolding extract_user_info_and_set_auth
  extract-IsScrubbed req none_given h =
      let (name, at) = no_user-parts req.uri none_given in rw (h.0, name, at) h

  -- A redirect to a host with another name: the request that follows is sent with none of the headers
  -- that the code takes for sensitive, Authorization among them, whatever the request before carried
  -- and whatever the jar adds. The URI that the redirect leads to gives no user.
  pub redirect-scrubs :
      (jar : J) (current : Uri) (resp : Response) (req : Request)
      → is_same_host current (next_uri w current resp.location) ≡ false
      → no_user (next_uri w current resp.location) ≡ true
      → IsScrubbed (prepare w jar (redirect w current resp req)).headers
  unfolding redirect
  redirect-scrubs jar current resp req other none_given =
      let next = redirect w current resp req in
      extract-IsScrubbed (apply_cookies w jar next)
        (ap no_user (apply_cookies-uri jar next) ∙ none_given)
        (apply_cookies-IsScrubbed jar next (redirect-IsScrubbed current resp req other))

  follow-length :
      (left n : ℕ) (jar : J) (req : Request) → length (follow w left n jar req).sent ≤ left + 1
  unfolding follow
  follow-length zero n jar req =
      after_response-length 1 (prepare w jar req) (w.execute n (prepare w jar req))
        (λ resp. stop (prepare w jar req) max_redirects_exceeded) (omega arith)
        (λ resp. omega arith)
  follow-length (suc left) n jar req =
      let sent = prepare w jar req in
      let next = λ (resp : Response). redirect w (apply_cookies w jar req).uri resp sent in
      after_response-length (suc left + 1) sent (w.execute n sent)
        (λ resp. cons_sent sent (follow w left (n + 1) (w.capture jar sent resp) (next resp)))
        (omega arith)
        (λ resp. omega (arith, follow-length left (n + 1) (w.capture jar sent resp) (next resp)))

  -- However the servers answer, no more requests are sent than one and the limit of redirects, which is
  -- 10 if the setting is negative.
  pub execute_with_redirects-bounds :
      (limit : ℤ) (jar : J) (req : Request)
      → length (execute_with_redirects w limit jar req).sent ≤ redirect_limit limit + 1
  unfolding execute_with_redirects
  execute_with_redirects-bounds (pos zero) jar req = omega arith
  execute_with_redirects-bounds (pos (suc n)) jar req = follow-length (suc n) 0 jar req
  execute_with_redirects-bounds (negsuc n) jar req = follow-length 10 0 jar req
