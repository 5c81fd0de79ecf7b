-- ===== src/Landing/Arrival.antt =====
-- The landing page, the middleware and the guard on one session, after any number of callbacks.
use edge_guardian.Base.{
  ℕ, ◌≡◌, ◌⊎◌, inl, inr, refl, true, false, Option, none, some, List, [], ◌∷◌, Text, codes, arith,
  truthy, text_eq_refl, Bool-cases, Option-cases, if◌then◌else◌, Bool, leb, ltb, ◌&&◌, subst, sym,
}
use edge_guardian.Http.{HttpRequest}
use edge_guardian.Auth.{
  Account, Answer, no_answer, answer, Config, Token, Session, refresh_request, absorb, refresh, jwt,
  refreshed, session, refresh_error, is_current, signed_in, is_invalid_grant,
}
use edge_guardian.Auth.Callbacks.{Callback, after}
use edge_guardian.Auth.Guards.{
  guard_signs_in, page_request, is_matched, is_true, middleware, next, redirect,
}
use edge_guardian.Layout.UserMenu.{User}
use edge_guardian.Landing.{landing_page}

-- No error, or the one that the guard acts on.
abbrev IsKnown : Option Text → Type 0
IsKnown e = (e ≡ none) ⊎ (e ≡ some refresh_error)

either : (P : Token → Type 0) (b : Bool) (t u : Token) → P t → P u → P (if b then t else u)
either P true t u h k = h
either P false t u h k = k

-- A callback leaves no error that the guard does not know.
HasKnown : Token → Type 0
HasKnown t = IsKnown t.error

absorb-HasKnown : (later : ℕ) (t : Token) (a : Answer) → HasKnown t → HasKnown (absorb later t a)
unfolding absorb refreshed HasKnown
absorb-HasKnown later t no_answer h = h
absorb-HasKnown later t (answer status none) h =
    either HasKnown (leb 200 status && ltb status 300) t
      (if leb 400 status && ltb status 500 && false
        then record t { error = some refresh_error }
        else t)
      h
      (either HasKnown (leb 400 status && ltb status 500 && false)
        (record t { error = some refresh_error }) t (inr refl) h)
absorb-HasKnown later t (answer status (some body)) h =
    either HasKnown (leb 200 status && ltb status 300) (refreshed later t body)
      (if leb 400 status && ltb status 500 && is_invalid_grant (some body)
        then record t { error = some refresh_error }
        else t)
      (inl refl)
      (either HasKnown (leb 400 status && ltb status 500 && is_invalid_grant (some body))
        (record t { error = some refresh_error }) t (inr refl) h)

refresh-HasKnown :
    (c : Config) (exchange : HttpRequest → Answer) (later : ℕ) (t : Token)
    → HasKnown t
    → HasKnown (refresh c exchange later t)
unfolding refresh HasKnown
refresh-HasKnown c exchange later t h = elim (Option-cases t.refresh_token) [
  | inl q ↦ rw (refresh, q) (inr refl)
  | inr (r, q) ↦ elim (Bool-cases (truthy r)) [
    | inl z ↦ rw (refresh, q, z) (absorb-HasKnown later t (exchange (refresh_request c r)) h)
    | inr z ↦ rw (refresh, q, z) (inr refl)
  ]
]

signed_in-error : (t : Token) (account : Option Account) → (signed_in t account).error ≡ t.error
unfolding signed_in
signed_in-error t none = refl
signed_in-error t (some account) = refl

jwt-HasKnown :
    (c : Config) (exchange : HttpRequest → Answer) (now later : ℕ) (t : Token)
    (account : Option Account)
    → HasKnown t
    → HasKnown (jwt c exchange now later t account)
unfolding jwt HasKnown
jwt-HasKnown c exchange now later t account h =
    let u = signed_in t account in
    let hu = subst IsKnown (sym (signed_in-error t account)) h in
    either HasKnown (is_current now u) u (refresh c exchange later u) hu
      (refresh-HasKnown c exchange later u hu)

after-HasKnown :
    (c : Config) (xs : List Callback) (t : Token) → HasKnown t → HasKnown (after c xs t)
unfolding after
after-HasKnown c [] t h = h
after-HasKnown c (x ∷ xs) t h =
    after-HasKnown c xs (jwt c x.exchange x.now x.later t x.account)
      (jwt-HasKnown c x.exchange x.now x.later t x.account h)

either_next : (b : Bool) → (if b then next else next) ≡ next
either_next true = refl
either_next false = refl

page_request_signed :
    (skip : Option Text) (origin path url : Text) (s : Session)
    → page_request skip origin path url (some s) ≡ next
unfolding page_request middleware
page_request_signed skip origin path url s = elim (Bool-cases (is_matched path)) [
  | inl e ↦ rw e (either_next (is_true skip))
  | inr e ↦ rw e refl
]

landing_page-session :
    (c : Config) (s : Session) (t : Token) (user : User)
    → s.error ≡ none
    → HasKnown t
    → ((landing_page (some (some user, session c s t)) ≡ redirect (codes "/dashboard"))
        × (guard_signs_in (some (session c s t)) ≡ false))
      ⊎ ((landing_page (some (some user, session c s t)) ≡ next)
          × (guard_signs_in (some (session c s t)) ≡ true))
unfolding landing_page guard_signs_in session HasKnown
landing_page-session c s t user e (inl h) = inl (ground arith, ground arith)
landing_page-session c s t user e (inr h) =
    inr (ground arith, ground (arith, text_eq_refl refresh_error))

-- From a token without an error, after any callbacks with any answers of Keycloak, a user who is
-- signed in meets one of two: the landing page sends them to the dashboard, the middleware lets that
-- request pass and the guard there does not sign them in again; or the landing page stays, and the
-- guard would sign them in again.
pub landing_page-after :
    (c : Config) (xs : List Callback) (t : Token) (s : Session) (user : User) (skip : Option Text)
    (origin url : Text)
    → t.error ≡ none
    → s.error ≡ none
    → ((landing_page (some (some user, session c s (after c xs t))) ≡ redirect (codes "/dashboard"))
        × (page_request skip origin (codes "/dashboard") url (some (session c s (after c xs t)))
            ≡ next)
        × (guard_signs_in (some (session c s (after c xs t))) ≡ false))
      ⊎ ((landing_page (some (some user, session c s (after c xs t))) ≡ next)
          × (guard_signs_in (some (session c s (after c xs t))) ≡ true))
unfolding HasKnown
landing_page-after c xs t s user skip origin url ht hs =
    let u = after c xs t in
    elim (landing_page-session c s u user hs (after-HasKnown c xs t (inl ht))) [
      | inl (h, g) ↦
          inl (h, page_request_signed skip origin (codes "/dashboard") url (session c s u), g)
      | inr h ↦ inr h
    ]
