-- ===== src/Auth.antt =====
-- ui/lib/auth.ts: the NextAuth callbacks that keep the Keycloak tokens in the session.
-- Keycloak and the clock are parameters.
pub mod Refresh
pub mod Logout
pub mod Guards
pub mod Callbacks
pub mod Outage
use edge_guardian.Base.{
  ◌==◌, ℕ, ◌+◌, ◌*◌, ◌/◌, Bool, false, ◌&&◌, Option, none, some, List, [], ◌∷◌, ◌++◌, Text, codes,
  truthy, text_eq, leb, ltb, if◌then◌else◌, get_or,
}
use edge_guardian.Query.{query_string}
use edge_guardian.Http.{HttpRequest}

-- The `account` that Keycloak gives at sign-in.
pub record Account : Type 0 where
  pub access_token : Option Text
  pub refresh_token : Option Text
  pub id_token : Option Text
  pub expires_at : Option ℕ

-- The encrypted token. `expires_at` is in seconds; none stands for undefined and NaN.
pub record Token : Type 0 where
  pub access_token : Option Text
  pub refresh_token : Option Text
  pub id_token : Option Text
  pub expires_at : Option ℕ
  pub error : Option Text

-- The JSON object of Keycloak's answer, as far as it is read.
pub record TokenBody : Type 0 where
  pub access_token : Option Text
  pub refresh_token : Option Text
  pub id_token : Option Text
  pub expires_in : Option ℕ
  pub error : Option Text

-- The outcome of the refresh request; `json` is none if the body is no JSON.
pub data Answer : Type 0 where
  no_answer : Answer
  answer : (status : ℕ) (json : Option TokenBody) → Answer

-- `process.env` and the constants made of it, and the platform's `URL`: `with_query` is what
-- `new URL(address)` prints after its query has been set. An issuer that is no address makes it throw,
-- which is not modelled.
pub record Config : Type 0 where
  pub issuer : Text
  pub client_id : Text
  pub client_secret : Text
  pub base : Text
  pub with_query : (address query : Text) → Text

-- The values that stand in for variables that are not set.
unfoldable pub config_of_env :
    (Text → Text → Text)
    → Option Text
    → Option Text
    → Option Text
    → Option Text
    → Option Text
    → Config
config_of_env with_query issuer client_id client_secret auth_url next_auth_url = record {
  with_query = with_query;
  issuer = get_or issuer (codes "http://localhost:3000/kc/realms/edgeguardian");
  client_id = get_or client_id (codes "edgeguardian-ui");
  client_secret = get_or client_secret [];
  base = get_or auth_url (get_or next_auth_url []);
}

abbrev pub refresh_error : Text
refresh_error = codes "RefreshTokenError"

-- `if (value)`
abbrev pub given : Option Text → Bool
given none = false
given (some s) = truthy s

-- The copy of the account's tokens at sign-in.
unfoldable pub signed_in : Token → Option Account → Token
signed_in token none = token
signed_in token (some account) = record token {
  access_token = account.access_token;
  refresh_token = account.refresh_token;
  id_token = account.id_token;
  expires_at = account.expires_at;
}

-- `typeof token.expiresAt === "number" && Date.now() < token.expiresAt * 1000`
unfoldable pub is_current : ℕ → Token → Bool
is_current now token = elim (token.expires_at) [ none ↦ false | some s ↦ ltb now (s * 1000) ]

unfoldable pub refresh_request : Config → Text → HttpRequest
refresh_request c refresh_token = record {
  url = c.issuer ++ codes "/protocol/openid-connect/token";
  method = some (codes "POST");
  headers = (codes "Content-Type", codes "application/x-www-form-urlencoded") ∷ [];
  body = some (
      query_string (
        (codes "grant_type", codes "refresh_token")
        ∷ (codes "client_id", c.client_id)
        ∷ (codes "client_secret", c.client_secret)
        ∷ (codes "refresh_token", refresh_token)
        ∷ []));
}

-- `Math.floor(Date.now() / 1000) + refreshed.expires_in`, where undefined makes NaN
abbrev pub expiry : ℕ → Option ℕ → Option ℕ
expiry now none = none
expiry now (some seconds) = some (now / 1000 + seconds)

-- The tokens of a good answer.
unfoldable pub refreshed : ℕ → Token → TokenBody → Token
refreshed now token body = record {
  access_token = body.access_token;
  refresh_token = elim (body.refresh_token) [ none ↦ token.refresh_token | some r ↦ some r ];
  id_token = if given body.id_token then body.id_token else token.id_token;
  expires_at = expiry now body.expires_in;
  error = none;
}

abbrev pub is_invalid_grant : Option TokenBody → Bool
is_invalid_grant none = false
is_invalid_grant (some body) = elim (body.error) [
  | none ↦ false
  | some e ↦ text_eq e (codes "invalid_grant")
]

-- What the answer makes of the token. A good answer that is no JSON throws, and is caught.
unfoldable pub absorb : ℕ → Token → Answer → Token
unfolding refreshed
absorb now token no_answer = token
absorb now token (answer status json) =
    if leb 200 status && ltb status 300
    then elim json [ none ↦ token | some body ↦ refreshed now token body ]
    else if leb 400 status && ltb status 500 && is_invalid_grant json
    then record token { error = some refresh_error }
    else token

-- Keycloak's token endpoint.
module _ (config : Config) (exchange : HttpRequest → Answer) where
  -- `later` is the clock when the answer has come.
  unfoldable pub refresh : ℕ → Token → Token
  unfolding absorb
  refresh later token = elim (token.refresh_token) [
    | none ↦ record token { error = some refresh_error }
    | some r ↦
        if truthy r
        then absorb later token (exchange (refresh_request config r))
        else record token { error = some refresh_error }
  ]

  -- The `jwt` callback.
  unfoldable pub jwt : ℕ → ℕ → Token → Option Account → Token
  unfolding refresh is_current signed_in
  jwt now later token account =
      let t = signed_in token account in if is_current now t then t else refresh later t

-- What the browser sees.
pub record Session : Type 0 where
  pub access_token : Option Text
  pub id_token : Option Text
  pub logout_url : Text
  pub error : Option Text

-- `base.replace(/\/$/, "")`
unfoldable pub strip_slash : Text → Text
strip_slash [] = []
strip_slash (c ∷ []) = if c == b'/' then [] else c ∷ []
strip_slash (c ∷ d ∷ s) = c ∷ strip_slash (d ∷ s)

-- `if (token.idToken) … else …`
unfoldable pub logout_hint : Config → Option Text → Text × Text
logout_hint c none = (codes "client_id", c.client_id)
logout_hint c (some t) =
    if truthy t then (codes "id_token_hint", t) else (codes "client_id", c.client_id)

-- `if (base) …`
unfoldable pub logout_return : Config → List (Text × Text)
unfolding strip_slash
logout_return c =
    if truthy c.base
    then (codes "post_logout_redirect_uri", strip_slash c.base ++ codes "/auth/login") ∷ []
    else []

-- The parameters of the logout address, in the order in which they are set.
unfoldable pub logout_params : Config → Option Text → List (Text × Text)
unfolding logout_hint logout_return
logout_params c id_token = logout_hint c id_token ∷ logout_return c

unfoldable pub logout_address : Config → Text
logout_address c = c.issuer ++ codes "/protocol/openid-connect/logout"

-- The `session` callback.
unfoldable pub session : Config → Session → Token → Session
unfolding logout_params logout_address
session c s token = record {
  access_token = token.access_token;
  id_token = if given token.id_token then token.id_token else s.id_token;
  logout_url = c.with_query (logout_address c) (query_string (logout_params c token.id_token));
  error = if given token.error then token.error else s.error;
}
