-- ===== src/Auth/Outage.antt =====
-- What a session survives: while Keycloak does not refuse it, the next refresh that is granted brings
-- it back.
use edge_guardian.Base.{
  ℕ, ◌+◌, ◌*◌, ◌≤◌, ◌<◌, ◌≡◌, refl, true, false, ◌&&◌, inl, inr, Option, none, some, List, [], ◌∷◌,
  Text, truthy, leb, ltb, All, arith, Bool-cases, Option-cases,
}
use edge_guardian.Http.{HttpRequest}
use edge_guardian.Auth.{
  Token, TokenBody, Answer, no_answer, answer, Config, given, is_current, refresh_request,
  refreshed, is_invalid_grant, absorb, refresh, signed_in, jwt, Session, session,
}
use edge_guardian.Auth.Guards.{guard_signs_in}
use edge_guardian.Auth.Callbacks.{Callback, after}

-- No error, and a refresh token that can be sent.
abbrev pub IsRefreshable : Token → Type 0
IsRefreshable t = (t.error ≡ none) × (given t.refresh_token ≡ true)

-- A refresh token that comes with an answer is not empty.
abbrev pub IsUsable : Option Text → Type 0
IsUsable none = Unit
IsUsable (some r) = truthy r ≡ true

-- Keycloak fails in any way but to refuse the refresh token, or grants the refresh.
abbrev pub IsHarmless : Answer → Type 0
IsHarmless no_answer = Unit
IsHarmless (answer status none) = Unit
IsHarmless (answer status (some body)) =
    ((leb 400 status && ltb status 500 && is_invalid_grant (some body)) ≡ false)
    × IsUsable body.refresh_token

-- A run of the callback without a sign-in, where every answer is harmless.
abbrev pub IsPatient : Callback → Type 0
IsPatient x = (x.account ≡ none) × ((r : HttpRequest) → IsHarmless (x.exchange r))

refreshed-IsRefreshable :
    (later : ℕ) (t : Token) (body : TokenBody)
    → IsRefreshable t
    → IsUsable body.refresh_token
    → IsRefreshable (refreshed later t body)
unfolding refreshed
refreshed-IsRefreshable later t body (e, g) u = elim (Option-cases body.refresh_token) [
  | inl q ↦ (refl, rw q g)
  | inr (r, q) ↦ (refl, rw q (rw q at u))
]

absorb-IsRefreshable :
    (later : ℕ) (t : Token) (a : Answer)
    → IsRefreshable t
    → IsHarmless a
    → IsRefreshable (absorb later t a)
unfolding absorb
absorb-IsRefreshable later t no_answer h k = h
absorb-IsRefreshable later t (answer status none) (e, g) k = (ground arith, ground arith)
absorb-IsRefreshable later t (answer status (some body)) h (n, u) =
    elim (Bool-cases (leb 200 status && ltb status 300)) [
      | inl z ↦ rw z (refreshed-IsRefreshable later t body h u)
      | inr z ↦ rw (z, n) h
    ]

refresh-IsRefreshable :
    (c : Config) (exchange : HttpRequest → Answer) (later : ℕ) (t : Token)
    → ((r : HttpRequest) → IsHarmless (exchange r))
    → IsRefreshable t
    → IsRefreshable (refresh c exchange later t)
unfolding refresh
refresh-IsRefreshable c exchange later t k h = elim (Option-cases t.refresh_token) [
  | inl q ↦ absurd (ground (arith, q, h.1))
  | inr (r, q) ↦
      let z : truthy r ≡ true = ground (arith, q, h.1) in
      rw (refresh, q, z)
        (absorb-IsRefreshable later t (exchange (refresh_request c r)) h (k (refresh_request c r)))
]

jwt-IsRefreshable :
    (c : Config) (x : Callback) (t : Token)
    → IsPatient x
    → IsRefreshable t
    → IsRefreshable (jwt c x.exchange x.now x.later t x.account)
unfolding jwt signed_in
jwt-IsRefreshable c x t (a, k) h = elim (Bool-cases (is_current x.now t)) [
  | inl z ↦ rw (a, z) h
  | inr z ↦ rw (a, z) (refresh-IsRefreshable c x.exchange x.later t k h)
]

after-IsRefreshable :
    (c : Config) (xs : List Callback) (t : Token)
    → All IsPatient xs
    → IsRefreshable t
    → IsRefreshable (after c xs t)
unfolding after
after-IsRefreshable c [] t k h = h
after-IsRefreshable c (x ∷ xs) t (k, ks) h =
    after-IsRefreshable c xs _ ks (jwt-IsRefreshable c x t k h)

pub jwt-refreshed :
    (c : Config) (exchange : HttpRequest → Answer) (now later status : ℕ) (t : Token)
    (body : TokenBody)
    → IsRefreshable t
    → is_current now t ≡ false
    → ((r : HttpRequest) → exchange r ≡ answer status (some body))
    → 200 ≤ status
    → status < 300
    → jwt c exchange now later t none ≡ refreshed later t body
unfolding jwt refresh absorb signed_in
jwt-refreshed c exchange now later status t body h stale grants lo hi =
    elim (Option-cases t.refresh_token) [
      | inl q ↦ absurd (ground (arith, q, h.1))
      | inr (r, q) ↦ ground (arith, grants (refresh_request c r), h.1)
    ]

-- Whatever runs of the callback there were, as long as nobody signed in, Keycloak did not refuse the
-- refresh token and sent no empty one: if the token is then out of date and the refresh is granted,
-- the token has the access token of the answer and no error, it is current until one second before
-- the time that the answer grants is over, and a session without an error goes on without a sign-in.
pub jwt-after :
    (c : Config) (xs : List Callback) (t : Token) (exchange : HttpRequest → Answer)
    (now later status seconds then : ℕ) (body : TokenBody) (s : Session)
    → IsRefreshable t
    → All IsPatient xs
    → is_current now (after c xs t) ≡ false
    → ((r : HttpRequest) → exchange r ≡ answer status (some body))
    → 200 ≤ status
    → status < 300
    → body.expires_in ≡ some seconds
    → then + 1000 ≤ later + seconds * 1000
    → s.error ≡ none
    → ((jwt c exchange now later (after c xs t) none).access_token ≡ body.access_token)
      × ((jwt c exchange now later (after c xs t) none).error ≡ none)
      × (is_current then (jwt c exchange now later (after c xs t) none) ≡ true)
      × (guard_signs_in (some (session c s (jwt c exchange now later (after c xs t) none))) ≡ false)
jwt-after c xs t exchange now later status seconds then body s h ks stale grants lo hi x ends e =
    rw
      (jwt-refreshed c exchange now later status (after c xs t) body
        (after-IsRefreshable c xs t ks h) stale grants lo hi)
      (unfold refreshed is_current session guard_signs_in in
        (refl, refl, ground arith, ground arith))
