-- ===== src/Auth/Refresh.antt =====
-- When the `jwt` callback refreshes, what it keeps, and when it gives up.
use edge_guardian.Base.{
  ap, ◌∙◌, ℕ, ◌+◌, ◌*◌, ◌≤◌, ◌<◌, ◌≡◌, ◌≢◌, ◌↔◌, ◌⊎◌, inl, inr, refl, true, false, ◌&&◌, Option,
  none, some, Text, codes, truthy, text_eq_iff, leb, ltb, arith, Bool-cases, Option-cases,
  text_eq_refl,
}
use edge_guardian.Http.{HttpRequest}
use edge_guardian.Auth.{
  Token, TokenBody, Answer, no_answer, answer, Config, refresh_error, given, is_current,
  refresh_request, refreshed, is_invalid_grant, absorb, refresh, jwt, Session, session,
}
use edge_guardian.Auth.Guards.{guard_signs_in}

module _ (config : Config) (exchange : HttpRequest → Answer) where
  -- Keycloak answered the refresh of this token with a good status and the JSON object `body`.
  abbrev pub IsGranted : Token → TokenBody → Type 0
  IsGranted t body =
      (r : Text) × (status : ℕ) × (t.refresh_token ≡ some r)
      × (truthy r ≡ true)
      × (exchange (refresh_request config r) ≡ answer status (some body))
      × (200 ≤ status)
      × (status < 300)

  -- A refreshed token is current: from the moment of the answer until one second before the time
  -- that the answer grants is over, the callback returns it unchanged and asks nothing.
  pub jwt-granted :
      (now later then_now then_later : ℕ) (t : Token) (body : TokenBody) (seconds : ℕ)
      → is_current now t ≡ false
      → IsGranted t body
      → body.expires_in ≡ some seconds
      → then_now + 1000 ≤ later + seconds * 1000
      → (jwt config exchange now later t none ≡ refreshed later t body)
        × (jwt config exchange then_now then_later (refreshed later t body) none
            ≡ refreshed later t body)
  unfolding jwt
  jwt-granted now later then_now then_later t body seconds e (r, status, g0, g1, g2, g3, g4) x h =
      (ground arith, ground arith)

  -- Keycloak refused the refresh token itself.
  abbrev pub IsRejected : Token → Type 0
  IsRejected t =
      (r : Text) × (status : ℕ) × (body : TokenBody) × (t.refresh_token ≡ some r)
      × (truthy r ≡ true)
      × (exchange (refresh_request config r) ≡ answer status (some body))
      × (400 ≤ status)
      × (status < 500)
      × (body.error ≡ some (codes "invalid_grant"))

  is_invalid_grant-some :
      (json : Option TokenBody)
      → is_invalid_grant json ≡ true
      → (body : TokenBody) × (json ≡ some body) × (body.error ≡ some (codes "invalid_grant"))
  is_invalid_grant-some none h = cc
  is_invalid_grant-some (some body) h = elim (Option-cases body.error) [
    | inl e ↦ absurd (ground arith)
    | inr (x, e) ↦ (body, refl, ground (arith, text_eq_iff x (codes "invalid_grant")))
  ]

  absorb-error :
      (later : ℕ) (t : Token) (a : Answer)
      → t.error ≡ none
      → (absorb later t a).error ≡ some refresh_error
      → (status : ℕ) × (body : TokenBody) × (a ≡ answer status (some body))
        × (400 ≤ status)
        × (status < 500)
        × (body.error ≡ some (codes "invalid_grant"))
  unfolding absorb
  absorb-error later t no_answer e h = absurd (ground arith)
  absorb-error later t (answer status json) e h = elim (Bool-cases (is_invalid_grant json)) [
    | inl g ↦
        let (body, q, w) = is_invalid_grant-some json g in
        (status, body, ap (answer status) q, ground arith, ground arith, w)
    | inr g ↦ absurd (ground arith)
  ]

  jwt-stale :
      (now later : ℕ) (t : Token)
      → is_current now t ≡ false
      → jwt config exchange now later t none ≡ refresh config exchange later t
  unfolding jwt
  jwt-stale now later t h = ground arith

  absorb-rejected :
      (later status : ℕ) (t : Token) (body : TokenBody)
      → 400 ≤ status
      → status < 500
      → body.error ≡ some (codes "invalid_grant")
      → (absorb later t (answer status (some body))).error ≡ some refresh_error
  unfolding absorb
  absorb-rejected later status t body lo hi w = ground (arith, text_eq_refl (codes "invalid_grant"))

  refresh-gives_up :
      (later : ℕ) (t : Token)
      → (given t.refresh_token ≡ false) ⊎ IsRejected t
      → (refresh config exchange later t).error ≡ some refresh_error
  unfolding refresh
  refresh-gives_up later t (inl h) = ground arith
  refresh-gives_up later t (inr (r, status, body, q, z, a, lo, hi, w)) =
      ground (arith, absorb-rejected later status t body lo hi w)

  refresh-error :
      (later : ℕ) (t : Token)
      → t.error ≡ none
      → (refresh config exchange later t).error ≡ some refresh_error
      → (given t.refresh_token ≡ false) ⊎ IsRejected t
  unfolding refresh
  refresh-error later t e h = elim (Option-cases t.refresh_token) [
    | inl q ↦ inl (ground arith)
    | inr (r, q) ↦ elim (Bool-cases (truthy r)) [
      | inl z ↦
          let (status, body, a, lo, hi, w) =
            absorb-error later t (exchange (refresh_request config r)) e (ground arith) in
          inr (r, status, body, q, z, a, lo, hi, w)
      | inr z ↦ inl (ground arith)
    ]
  ]

  -- Without a sign-in, a token with no error gets the error that sends the user to sign in again
  -- exactly if it is no longer current and either it has no refresh token or Keycloak answered the
  -- refresh with a 4xx status and `invalid_grant`: no network failure and no other answer ends a
  -- session.
  pub jwt-gives_up_iff :
      (now later : ℕ) (t : Token)
      → t.error ≡ none
      → ((jwt config exchange now later t none).error ≡ some refresh_error)
        ↔ ((is_current now t ≡ false) × ((given t.refresh_token ≡ false) ⊎ IsRejected t))
  unfolding jwt
  jwt-gives_up_iff now later t e = (
    λ h. (ground arith, refresh-error later t e (ground arith)),
    λ h. rw (jwt-stale, h.0) (refresh-gives_up later t h.1),
  )

  absorb-kept :
      (later : ℕ) (t : Token) (a : Answer)
      → ((status : ℕ) (body : TokenBody)
          → 200 ≤ status
          → status < 300
          → a ≢ answer status (some body))
      → (e : Option Text) × (absorb later t a ≡ record t { error = e })
  unfolding absorb
  absorb-kept later t no_answer h = (t.error, refl)
  absorb-kept later t (answer status none) h = (t.error, ground arith)
  absorb-kept later t (answer status (some body)) h =
      elim (Bool-cases (leb 400 status && ltb status 500 && is_invalid_grant (some body))) [
        | inl g ↦ (some refresh_error, ground (arith, h status body))
        | inr g ↦ (t.error, ground (arith, h status body))
      ]

  refresh-kept :
      (later : ℕ) (t : Token)
      → ((body : TokenBody) → ¬ IsGranted t body)
      → (e : Option Text) × (refresh config exchange later t ≡ record t { error = e })
  unfolding refresh
  refresh-kept later t h = elim (Option-cases t.refresh_token) [
    | inl q ↦ (some refresh_error, ground arith)
    | inr (r, q) ↦ elim (Bool-cases (truthy r)) [
      | inl z ↦
          let (e, w) =
            absorb-kept later t (exchange (refresh_request config r))
              (λ status body lo hi a. h body (r, status, q, z, a, lo, hi)) in
          (e, ground (arith, w))
      | inr z ↦ (some refresh_error, ground arith)
    ]
  ]

  -- When the `jwt` callback runs without a sign-in and Keycloak does not grant a refresh, it changes nothing
  -- but the error: the session keeps its tokens and its expiry, so that a later call can try again.
  pub jwt-kept :
      (now later : ℕ) (t : Token)
      → ((body : TokenBody) → ¬ IsGranted t body)
      → (e : Option Text) × (jwt config exchange now later t none ≡ record t { error = e })
  unfolding jwt
  jwt-kept now later t h = elim (Bool-cases (is_current now t)) [
    | inl c ↦ (t.error, ground arith)
    | inr c ↦ let (e, w) = refresh-kept later t h in (e, jwt-stale now later t c ∙ w)
  ]

  guard-error :
      (s : Session) (t : Token)
      → s.error ≡ none
      → guard_signs_in (some (session config s t)) ≡ true
      → t.error ≡ some refresh_error
  unfolding guard_signs_in session
  guard-error s t e h = elim (Option-cases t.error) [
    | inl q ↦ absurd (ground arith)
    | inr (x, q) ↦ ground (arith, text_eq_iff x refresh_error)
  ]

  error-guard :
      (s : Session) (t : Token)
      → t.error ≡ some refresh_error
      → guard_signs_in (some (session config s t)) ≡ true
  unfolding guard_signs_in session
  error-guard s t q = ground (arith, text_eq_refl refresh_error)

  -- From the callbacks to the browser, when the `jwt` callback runs without a sign-in: with a token and a
  -- session that had no error, the page sends the user to sign in again exactly if the token is no longer
  -- current and either it has no refresh token or Keycloak answered the refresh with a 4xx status and
  -- `invalid_grant`.
  pub guard_signs_in-session-jwt_iff :
      (now later : ℕ) (s : Session) (t : Token)
      → s.error ≡ none
      → t.error ≡ none
      → (guard_signs_in (some (session config s (jwt config exchange now later t none))) ≡ true)
        ↔ ((is_current now t ≡ false) × ((given t.refresh_token ≡ false) ⊎ IsRejected t))
  guard_signs_in-session-jwt_iff now later s t es et =
      let u = jwt config exchange now later t none in
      let (to, from) = jwt-gives_up_iff now later t et in
      (λ h. to (guard-error s u es h), λ h. error-guard s u (from h))
