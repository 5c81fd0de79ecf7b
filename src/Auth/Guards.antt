-- ===== src/Auth/Guards.antt =====
-- ui/middleware.ts, with the `authorized` callback of ui/lib/auth.ts, and
-- ui/components/refresh-error-guard.tsx: who is let in, and who has to sign in.
use edge_guardian.Base.{
  any, starts_with, Bool, false, not, Option, none, some, List, [], ◌∷◌, ◌++◌, Text, codes, text_eq,
  if◌then◌else◌, is_some,
}
use edge_guardian.Query.{query_string}
use edge_guardian.Auth.{Session, refresh_error}

-- The `authorized` callback: `!!auth`.
abbrev pub authorized {ℓ} : {S : Type ℓ} → Option S → Bool
authorized auth = is_some auth

-- ui/middleware.ts: pass on, or go to the login page with the way back.
pub data Decision : Type 0 where
  next : Decision
  redirect : Text → Decision

abbrev pub is_true : Option Text → Bool
is_true none = false
is_true (some v) = text_eq v (codes "true")

unfoldable pub login_url : Text → Text → Text
login_url origin url =
    origin ++ codes "/auth/login?" ++ query_string ((codes "callbackUrl", url) ∷ [])

-- `skip_auth` is the variable SKIP_AUTH, `origin` the scheme and host of `req.url`.
unfoldable pub middleware {ℓ} : {S : Type ℓ} → Option Text → Text → Text → Option S → Decision
unfolding login_url
middleware skip_auth origin url auth =
    if is_true skip_auth
    then next
    else if not (authorized auth)
    then redirect (login_url origin url)
    else next

-- ui/components/refresh-error-guard.tsx: whether the effect calls `signIn`.
unfoldable pub guard_signs_in : Option Session → Bool
guard_signs_in none = false
guard_signs_in (some s) = elim (s.error) [ none ↦ false | some e ↦ text_eq e refresh_error ]

-- The matcher of the middleware: one of the words after the first slash, and anything behind it.
abbrev pub guarded_words : List Text
guarded_words =
    codes "dashboard"
    ∷ codes "devices"
    ∷ codes "certificates"
    ∷ codes "audit"
    ∷ codes "settings"
    ∷ []

unfoldable pub is_matched : Text → Bool
unfolding starts_with any
is_matched path = any (λ word. starts_with path (b'/' ∷ word)) guarded_words

-- What becomes of a request for a page: only the paths that match run the middleware.
unfoldable pub page_request {ℓ} :
    {S : Type ℓ} → Option Text → Text → Text → Text → Option S → Decision
unfolding is_matched middleware
page_request skip_auth origin path url auth =
    if is_matched path then middleware skip_auth origin url auth else next
