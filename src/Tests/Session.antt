-- ===== src/Tests/Session.antt =====
-- ui/lib/auth.ts, ui/middleware.ts, ui/components/refresh-error-guard.tsx, ui/app/page.tsx and
-- ui/lib/hooks/use-organization.ts at concrete inputs.
use edge_guardian.Base.{
  ℕ, ◌≡◌, ◌≢◌, ◌↔◌, ◌⊎◌, inl, inr, refl, true, false, Option, none, some, List, [], ◌∷◌, ◌++◌, Text,
  codes, arith,
}
use edge_guardian.Query.{utf8}
use edge_guardian.Query.RoundTrip.{parse_query}
use edge_guardian.Http.{HttpRequest}
use edge_guardian.Auth.{
  Config, Token, TokenBody, Answer, answer, no_answer, Session, jwt, refreshed, is_current, given,
  session, refresh, absorb, signed_in, refresh_error,
}
use edge_guardian.Auth.Guards.{guard_signs_in, middleware, page_request, next, redirect}
use edge_guardian.Auth.Refresh.{
  IsGranted, IsRejected, jwt-granted, jwt-gives_up_iff, jwt-kept, guard_signs_in-session-jwt_iff,
}
use edge_guardian.Auth.Logout.{middleware_lem}
use edge_guardian.Layout.UserMenu.{User}
use edge_guardian.Landing.{landing_page}
use edge_guardian.Auth.Callbacks.{Callback, after}
use edge_guardian.Auth.Outage.{jwt-after}
use edge_guardian.Landing.Arrival.{landing_page-after}
use edge_guardian.Organization.{OrganizationState, initialize, set_org_id, current_org}
use edge_guardian.Organization.Choice.{initialize-current_org, initialize-set_org_id, IsMember}
use edge_guardian.Api.Organizations.{MeResponse, MeOrganization}

abbrev config : Config
config = record {
  issuer = codes "https://id.example/realms/edge";
  client_id = codes "ui";
  client_secret = codes "s3cret";
  base = codes "https://edge.example/";
  with_query = λ address query. address ++ b'?' ∷ query;
}

abbrev token : Token
token = record {
  access_token = some (codes "a1");
  refresh_token = some (codes "r1");
  id_token = some (codes "i1");
  expires_at = some 100;
  error = none;
}

abbrev body : TokenBody
body = record {
  access_token = some (codes "a2");
  refresh_token = none;
  id_token = none;
  expires_in = some 300;
  error = none;
}

abbrev refusal : TokenBody
refusal = record {
  access_token = none;
  refresh_token = none;
  id_token = none;
  expires_in = none;
  error = some (codes "invalid_grant");
}

abbrev blank : Session
blank = record { access_token = none; id_token = none; logout_url = []; error = none }

-- Keycloak grants every refresh, refuses every one, or is not there.
abbrev grants : HttpRequest → Answer
grants r = answer 200 (some body)

abbrev refuses : HttpRequest → Answer
refuses r = answer 400 (some refusal)

abbrev silent : HttpRequest → Answer
silent r = no_answer

granted : IsGranted config grants token body
granted = (codes "r1", 200, refl, refl, refl, omega arith, omega arith)

-- The refreshed token is used without a request.
unchanged :
    (jwt config grants 200000 200500 token none ≡ refreshed 200500 token body)
    × (jwt config grants 300000 300100 (refreshed 200500 token body) none
        ≡ refreshed 200500 token body)
unchanged =
    jwt-granted config grants 200000 200500 300000 300100 token body 300 (unfold is_current in refl)
      granted refl (omega arith)

-- Keycloak cannot be reached, and then has no answer but 503.
abbrev outage : List Callback
outage =
    record { now = 110000; later = 110500; exchange = silent; account = none }
    ∷ record { now = 120000; later = 120500; exchange = λ r. answer 503 none; account = none }
    ∷ []

jwt-after_example :
    ((jwt config grants 200000 200500 (after config outage token) none).access_token
      ≡ some (codes "a2"))
    × ((jwt config grants 200000 200500 (after config outage token) none).error ≡ none)
    × (is_current 400000 (jwt config grants 200000 200500 (after config outage token) none) ≡ true)
    × (guard_signs_in (
          some (
            session config blank
              (jwt config grants 200000 200500 (after config outage token) none)))
        ≡ false)
unfolding after jwt refresh absorb is_current signed_in
jwt-after_example =
    jwt-after config outage token grants 200000 200500 200 300 400000 body blank (refl, refl)
      ((refl, λ r. tt), ((refl, λ r. tt), tt)) refl (λ r. refl) (omega arith) (omega arith) refl
      (omega arith) refl

-- The session is read 60 seconds before the token's end, and 200 seconds later the page still sends it.
kept_too_long :
    is_current 640000 (jwt config grants 440000 440500 (refreshed 200500 token body) none) ≡ false
unfolding jwt signed_in is_current refreshed
kept_too_long = refl

jwt-gives_up_iff_example :
    ((jwt config refuses 200000 200500 token none).error ≡ some refresh_error) ↔ (
      (is_current 200000 token ≡ false)
      × ((given token.refresh_token ≡ false) ⊎ IsRejected config refuses token))
jwt-gives_up_iff_example = jwt-gives_up_iff config refuses 200000 200500 token refl

not-IsGranted : (b : TokenBody) → ¬ IsGranted config silent token b
not-IsGranted b (r, status, q, z, a, lo, hi) = cc

jwt-kept_example :
    (e : Option Text) × (jwt config silent 200000 200500 token none ≡ record token { error = e })
jwt-kept_example = jwt-kept config silent 200000 200500 token not-IsGranted

guard_signs_in-session-jwt_iff_example :
    (guard_signs_in (some (session config blank (jwt config refuses 200000 200500 token none)))
      ≡ true)
    ↔ ((is_current 200000 token ≡ false)
        × ((given token.refresh_token ≡ false) ⊎ IsRejected config refuses token))
guard_signs_in-session-jwt_iff_example =
    guard_signs_in-session-jwt_iff config refuses 200000 200500 blank token refl refl

abbrev nobody : Option Session
nobody = none

abbrev skip : Option Text
skip = none

middleware_lem_example :
    ((middleware skip
          (codes "https://edge.example")
          (codes "https://edge.example/devices?a=1&b=2")
          nobody
        ≡ next)
      × ((skip ≡ some (codes "true")) ⊎ (nobody ≢ none)))
    ⊎ ((skip ≢ some (codes "true"))
        × (nobody ≡ none)
        × ((q : Text) × (middleware skip
                (codes "https://edge.example")
                (codes "https://edge.example/devices?a=1&b=2")
                nobody
              ≡ redirect (codes "https://edge.example" ++ codes "/auth/login?" ++ q))
            × (parse_query q
                ≡ (codes "callbackUrl", utf8 (codes "https://edge.example/devices?a=1&b=2")) ∷ [])))
middleware_lem_example =
    middleware_lem skip (codes "https://edge.example")
      (codes "https://edge.example/devices?a=1&b=2") nobody (omega arith)

abbrev user : User
user = record { name = some (codes "Ada"); email = none }

-- A refresh that succeeds, and one much later that Keycloak refuses.
abbrev callbacks : List Callback
callbacks =
    record { now = 200000; later = 200500; exchange = grants; account = none }
    ∷ record { now = 900000; later = 900500; exchange = refuses; account = none }
    ∷ []

landing_page-after_example :
    ((landing_page (some (some user, session config blank (after config callbacks token)))
        ≡ redirect (codes "/dashboard"))
      × (page_request skip
            (codes "https://edge.example")
            (codes "/dashboard")
            (codes "https://edge.example/dashboard")
            (some (session config blank (after config callbacks token)))
          ≡ next)
      × (guard_signs_in (some (session config blank (after config callbacks token))) ≡ false))
    ⊎ ((landing_page (some (some user, session config blank (after config callbacks token))) ≡ next)
        × (guard_signs_in (some (session config blank (after config callbacks token))) ≡ true))
landing_page-after_example =
    landing_page-after config callbacks token blank user skip (codes "https://edge.example")
      (codes "https://edge.example/dashboard") refl refl

abbrev organization : ℕ → MeOrganization
organization n = record { id = n; name = codes "Org"; slug = codes "org"; role = codes "member" }

abbrev profile : MeResponse
profile = record {
  user = record {
    id = 1;
    email = codes "a@b.c";
    display_name = codes "A";
    avatar_url = none;
    created_at = [];
  };
  organizations = organization 7 ∷ organization 12 ∷ [];
}

abbrev loaded : OrganizationState
loaded = record { me = some profile; org_id = none; storage = [] }

abbrev reloaded : OrganizationState
reloaded = record { me = some profile; org_id = none; storage = (set_org_id 12 loaded).storage }

initialize-current_org_example :
    (o : MeOrganization) × (current_org (initialize loaded) ≡ some o)
    × ((initialize loaded).org_id ≡ some o.id)
    × IsMember o.id (organization 7 ∷ organization 12 ∷ [])
initialize-current_org_example = initialize-current_org loaded profile refl refl (λ e. cc)

initialize-set_org_id_example :
    ((initialize reloaded).org_id ≡ some 12)
    × ((o : MeOrganization) × (current_org (initialize reloaded) ≡ some o) × (o.id ≡ 12))
initialize-set_org_id_example =
    initialize-set_org_id 12 loaded reloaded profile refl refl refl (inr (inl refl))
