-- ===== src/Auth/Logout.antt =====
-- The addresses that the session and the middleware build, read back by the URL's own parser.
use edge_guardian.Base.{
  ap, get_or, text_eq_iff, ◌≡◌, refl, ◌⊎◌, true, Option, none, some, List, [], ◌∷◌, ◌++◌, Text,
  codes, truthy, All, if◌then◌else◌, arith, Bool-cases, inl, inr, ◌≢◌, ◌↔◌,
}
use edge_guardian.Query.{query_string, utf8}
use edge_guardian.Query.RoundTrip.{parse_query, parse_query-query_string, IsCodePoint}
use edge_guardian.Auth.{Config, given, strip_slash}
use edge_guardian.Auth.Guards.{middleware, next, redirect, is_true}

-- `https://host/` and `https://host` give one address.
pub strip_slash-slash : (s : Text) → strip_slash (s ++ b'/' ∷ []) ≡ s
unfolding strip_slash
strip_slash-slash [] = refl
strip_slash-slash (c ∷ []) = refl
strip_slash-slash (c ∷ d ∷ s) = ap (◌∷◌ c) (strip_slash-slash (d ∷ s))

-- The texts of the configuration and of the token are Unicode.
abbrev pub IsUnicodeOption : Option Text → Type 0
IsUnicodeOption none = Unit
IsUnicodeOption (some s) = All IsCodePoint s

-- What the logout address has to tell Keycloak: whose session ends, by the identity token or else
-- by the client, and where to go afterwards, if the address of this site is known.
abbrev pub hint_intent : Config → Option Text → Text × Text
hint_intent c id_token =
    if given id_token
    then (codes "id_token_hint", utf8 (get_or id_token []))
    else (codes "client_id", utf8 c.client_id)

abbrev pub return_intent : Config → List (Text × Text)
return_intent c =
    if truthy c.base
    then (codes "post_logout_redirect_uri", utf8 (strip_slash c.base ++ codes "/auth/login")) ∷ []
    else []

is_true_iff : (v : Option Text) → (is_true v ≡ true) ↔ (v ≡ some (codes "true"))
is_true_iff none = (λ h. cc, λ h. cc)
is_true_iff (some s) =
    let (to, from) = text_eq_iff s (codes "true") in (λ h. ap some (to h), λ h. from (cc))

callback_query :
    (url : Text)
    → All IsCodePoint url
    → parse_query (query_string ((codes "callbackUrl", url) ∷ []))
      ≡ (codes "callbackUrl", utf8 url) ∷ []
unfolding utf8
callback_query url h =
    parse_query-query_string ((codes "callbackUrl", url) ∷ []) ((omega arith, h), tt)

-- The middleware lets a request pass if the check is switched off or there is a session. Otherwise
-- it goes to the login page with a query that is parsed to the address of the request alone.
pub middleware_lem :
    {S : Type 0} (skip : Option Text) (origin url : Text) (auth : Option S)
    → All IsCodePoint url
    → ((middleware skip origin url auth ≡ next) × ((skip ≡ some (codes "true")) ⊎ (auth ≢ none)))
      ⊎ ((skip ≢ some (codes "true"))
          × (auth ≡ none)
          × ((q : Text) × (middleware skip origin url auth
                ≡ redirect (origin ++ codes "/auth/login?" ++ q))
              × (parse_query q ≡ (codes "callbackUrl", utf8 url) ∷ [])))
unfolding middleware
middleware_lem skip origin url (some a) h = inl (ground arith, inr (cc))
middleware_lem skip origin url none h = elim (Bool-cases (is_true skip)) [
  | inl e ↦ inl (rw e refl, inl ((is_true_iff skip).0 e))
  | inr e ↦ inr (
    λ w. cc ((is_true_iff skip).1 w, e),
    refl,
    (query_string ((codes "callbackUrl", url) ∷ []), rw e refl, callback_query url h),
  )
]
