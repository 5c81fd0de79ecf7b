-- ===== src/Http.antt =====
-- ui/lib/api-client.ts: the one place from which the user interface calls the controller. The
-- platform's `fetch` and `JSON.parse` are parameters.
pub mod Laws
use edge_guardian.Base.{
  ℕ, Bool, ◌&&◌, Option, none, some, List, [], ◌∷◌, ◌++◌, Text, codes, truthy, or_else, leb, ltb,
  ◌==◌, if◌then◌else◌, insert, spread,
}

-- `RequestInit & { token?: string }`, as far as the callers fill it.
pub record FetchOptions : Type 0 where
  pub token : Option Text
  pub method : Option Text
  pub headers : List (Text × Text)
  pub body : Option Text

abbrev pub no_options : FetchOptions
no_options = record { token = none; method = none; headers = []; body = none }

-- What `fetch` is called with; without a method it sends a GET.
pub record HttpRequest : Type 0 where
  pub url : Text
  pub method : Option Text
  pub headers : List (Text × Text)
  pub body : Option Text

-- `text` is none if reading the body fails.
pub record Response : Type 0 where
  pub status : ℕ
  pub status_text : Text
  pub text : Option Text

-- The outcome of `fetch`: it rejects only if no response came.
pub data Fetched : Type 0 where
  response : Response → Fetched
  rejected : Fetched

-- `ApiError`, and the exceptions that the platform throws.
pub data Failure : Type 0 where
  api_error : ℕ → Text → Failure
  network_error syntax_error : Failure

pub data Result {ℓ} (A : Type ℓ) : Type ℓ where
  ok : A → Result A
  err : Failure → Result A

infixl 5 ◌>>=◌
abbrev pub ◌>>=◌ {ℓ κ} : {A : Type ℓ} {B : Type κ} → Result A → (A → Result B) → Result B
ok a >>= f = f a
err e >>= f = err e

-- `response.ok`
abbrev pub is_ok : Response → Bool
is_ok r = leb 200 r.status && ltb r.status 300

-- `await response.text()`
abbrev pub read_text : Response → Result Text
read_text r = elim (r.text) [ none ↦ err network_error | some s ↦ ok s ]

abbrev pub content_type : Text
content_type = codes "Content-Type"

abbrev pub authorization : Text
authorization = codes "Authorization"

unfoldable pub bearer : Text → Text
bearer token = codes "Bearer " ++ token

abbrev authorize : Option Text → List (Text × Text) → List (Text × Text)
authorize none headers = headers
authorize (some token) headers =
    if truthy token then insert authorization (bearer token) headers else headers

-- The `headers` object that `rawFetch` builds.
unfoldable pub request_headers : FetchOptions → List (Text × Text)
request_headers options =
    authorize options.token (spread ((content_type, codes "application/json") ∷ []) options.headers)

-- A status outside 200 to 299 becomes an `ApiError` with the body, or else the status text.
unfoldable pub check_status : Response → Result Response
check_status r =
    if is_ok r
    then ok r
    else (read_text r >>= λ body. err (api_error r.status (or_else body r.status_text)))

abbrev pub settle : Fetched → Result Response
settle rejected = err network_error
settle (response r) = check_status r

module _ {ℓ} {J : Type ℓ} (parse_json : Text → Option J) where
  abbrev parsed : Option J → Result (Option J)
  parsed none = err syntax_error
  parsed (some j) = ok (some j)

  -- 204 is read as `undefined`, anything else as JSON.
  unfoldable pub decode_body : Response → Result (Option J)
  decode_body r =
      if r.status == 204 then ok none else (read_text r >>= λ body. parsed (parse_json body))

-- `API_BASE_URL` and the platform.
module _ (base : Text) (fetch : HttpRequest → Fetched) where
  unfoldable pub absolute_url : Text → Text
  absolute_url path = base ++ path

  -- The request that `rawFetch` sends.
  unfoldable pub request : Text → FetchOptions → HttpRequest
  unfolding absolute_url request_headers
  request path options = record {
    url = absolute_url path;
    method = options.method;
    headers = request_headers options;
    body = options.body;
  }

  unfoldable pub raw_fetch : Text → FetchOptions → Result Response
  raw_fetch path options = settle (fetch (request path options))

  unfoldable pub api_fetch_text : Text → FetchOptions → Result Text
  unfolding raw_fetch
  api_fetch_text path options = do r ← raw_fetch path options; read_text r

  module _ {ℓ} {J : Type ℓ} (parse_json : Text → Option J) where
    unfoldable pub api_fetch : Text → FetchOptions → Result (Option J)
    unfolding raw_fetch
    api_fetch path options = do r ← raw_fetch path options; decode_body parse_json r
