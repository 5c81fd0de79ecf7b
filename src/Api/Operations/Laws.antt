-- ===== src/Api/Operations/Laws.antt =====
-- Each operation is one request that a server can tell from all others.
use edge_guardian.Base.{
  not, ◌&&◌, append-nil, ℕ, ◌≡◌, ◌≢◌, refl, Option, none, some, [], ◌∷◌, ◌++◌, Bool, true, Text,
  codes, text_eq, All, All-append, arith, ◌==◌, truthy, lookup,
}
use edge_guardian.Decimal.{to_string, is_digit}
use edge_guardian.Decimal.RoundTrip.{to_string-All}
use edge_guardian.Endpoints.{
  Endpoint, url, api_keys_by_id, certificates_revoke, devices_by_id, devices_labels, devices_list,
  devices_logs, devices_manifest, devices_telemetry, devices_telemetry_hourly,
  enrollment_tokens_by_id, invitations_by_id, me, members_by_id, organization_audit_log,
  requests_approve, requests_reject, shell_sessions,
}
use edge_guardian.Endpoints.Routing.{canonical}
use edge_guardian.Http.{HttpRequest, Fetched, request, bearer}
use edge_guardian.Http.Laws.{lookup-request_headers_token}
use edge_guardian.Api.Operations.Server.{cut_query, Name, name, serve}
use edge_guardian.Api.Devices.{telemetry_url, TelemetryBucket, raw, hourly}
use edge_guardian.Api.Organizations.{question}
use edge_guardian.Api.Operations.{
  Operation, call, target, telemetry_endpoint, list_devices, get_device_logs, get_device_telemetry,
  list_audit_log,
}

abbrev pub NoQuery : Text → Type 0
NoQuery = All (λ c. c ≢ b'?')

cut_query-append : (s r : Text) → NoQuery s → cut_query (s ++ b'?' ∷ r) ≡ s
unfolding cut_query
cut_query-append [] r h = refl
cut_query-append (c ∷ s) r (h, hs) = ground (arith, cut_query-append s r hs)

cut_query_none : (s : Text) → NoQuery s → cut_query s ≡ s
unfolding cut_query
cut_query_none [] h = refl
cut_query_none (c ∷ s) (h, hs) = ground (arith, cut_query_none s hs)

-- No text of a path but a device identifier can hold a question mark.
abbrev pub IsAddressable : Endpoint → Type 0
IsAddressable (devices_by_id id) = NoQuery id
IsAddressable (devices_manifest id) = NoQuery id
IsAddressable (devices_labels id) = NoQuery id
IsAddressable (devices_logs id) = NoQuery id
IsAddressable (devices_telemetry id) = NoQuery id
IsAddressable (devices_telemetry_hourly id) = NoQuery id
IsAddressable (shell_sessions id) = NoQuery id
IsAddressable _ = Unit

NoQuery-of_digits : (s : Text) → All (λ c. is_digit c ≡ true) s → NoQuery s
NoQuery-of_digits [] h = tt
NoQuery-of_digits (c ∷ s) (h, hs) = (ground arith, NoQuery-of_digits s hs)

number-NoQuery : (n : ℕ) → NoQuery (to_string n)
number-NoQuery n = NoQuery-of_digits (to_string n) (to_string-All n)

numbered-NoQuery : (n : ℕ) (rest : Text) → NoQuery rest → NoQuery (to_string n ++ rest)
numbered-NoQuery n rest h = All-append _ (to_string n) rest (number-NoQuery n) h

no_query : Text → Bool
no_query [] = true
no_query (c ∷ s) = not (c == b'?') && no_query s

-- A literal, then a text.
prefixed-NoQuery : (w s : Text) → no_query w ≡ true → NoQuery s → NoQuery (w ++ s)
unfolding no_query
prefixed-NoQuery [] s e h = h
prefixed-NoQuery (c ∷ w) s e h = (ground arith, prefixed-NoQuery w s (ground arith) h)

device-NoQuery :
    (id w : Text) → NoQuery id → no_query w ≡ true → NoQuery (codes "/api/v1/devices/" ++ id ++ w)
unfolding no_query
device-NoQuery id w h e =
    prefixed-NoQuery (codes "/api/v1/devices/") (id ++ w) refl
      (All-append _ id w h (rw append-nil at (prefixed-NoQuery w [] e tt)))

pub url-NoQuery : (e : Endpoint) → IsAddressable e → NoQuery (url e)
unfolding url no_query
url-NoQuery (devices_by_id id) h = prefixed-NoQuery (codes "/api/v1/devices/") id refl h
url-NoQuery (devices_manifest id) h = device-NoQuery id (codes "/manifest") h refl
url-NoQuery (devices_labels id) h = device-NoQuery id (codes "/labels") h refl
url-NoQuery (devices_logs id) h = device-NoQuery id (codes "/logs") h refl
url-NoQuery (devices_telemetry id) h = device-NoQuery id (codes "/telemetry") h refl
url-NoQuery (devices_telemetry_hourly id) h = device-NoQuery id (codes "/telemetry/hourly") h refl
url-NoQuery (shell_sessions id) h = device-NoQuery id (codes "/shell/sessions") h refl
url-NoQuery (members_by_id n) h =
    prefixed-NoQuery (codes "/api/v1/organization/members/") _ refl (number-NoQuery n)
url-NoQuery (invitations_by_id n) h =
    prefixed-NoQuery (codes "/api/v1/organization/invitations/") _ refl (number-NoQuery n)
url-NoQuery (api_keys_by_id n) h =
    prefixed-NoQuery (codes "/api/v1/api-keys/") _ refl (number-NoQuery n)
url-NoQuery (enrollment_tokens_by_id n) h =
    prefixed-NoQuery (codes "/api/v1/enrollment-tokens/") _ refl (number-NoQuery n)
url-NoQuery (certificates_revoke n) h =
    prefixed-NoQuery (codes "/api/v1/certificates/") _ refl (numbered-NoQuery n _ (omega arith))
url-NoQuery (requests_approve n) h =
    prefixed-NoQuery (codes "/api/v1/certificates/requests/") _ refl
      (numbered-NoQuery n _ (omega arith))
url-NoQuery (requests_reject n) h =
    prefixed-NoQuery (codes "/api/v1/certificates/requests/") _ refl
      (numbered-NoQuery n _ (omega arith))
url-NoQuery me h = omega arith
url-NoQuery e h = omega arith

pub telemetry_url-eq :
    (id : Text) (b : Option TelemetryBucket) → telemetry_url id b ≡ url (telemetry_endpoint id b)
telemetry_url-eq id none = refl
telemetry_url-eq id (some raw) = refl
telemetry_url-eq id (some hourly) = refl

cut_query-question : (s q : Text) → NoQuery s → cut_query (s ++ question q) ≡ s
cut_query-question s [] h = rw append-nil (cut_query_none s h)
cut_query-question s (c ∷ q) h = cut_query-append s (c ∷ q) h

-- The path of an operation before its query is the address of its endpoint.
pub cut_query-call :
    (t : Text) (op : Operation)
    → IsAddressable (target op)
    → cut_query (call t op).path ≡ url (target op)
unfolding call target
cut_query-call t (get_device_logs a b) h =
    cut_query-append (url (devices_logs a)) _ (url-NoQuery (devices_logs a) h)
cut_query-call t (get_device_telemetry a b) h = rw telemetry_url-eq (
    cut_query-append (url (telemetry_endpoint a b.bucket)) _
      (url-NoQuery (telemetry_endpoint a b.bucket) h))
cut_query-call t (list_audit_log a) h =
    cut_query-question (url organization_audit_log) _ (url-NoQuery organization_audit_log h)
cut_query-call t list_devices h = cut_query_none (url devices_list) (url-NoQuery devices_list h)
cut_query-call t op h = cut_query_none (url (target op)) (url-NoQuery (target op) h)

served_telemetry :
    (id : Text) (b : Option TelemetryBucket)
    → serve none (canonical (telemetry_endpoint id b)) ≡ some Name.get_device_telemetry
unfolding serve canonical
served_telemetry id none = refl
served_telemetry id (some raw) = refl
served_telemetry id (some hourly) = refl

pub served :
    (t : Text) (op : Operation)
    → serve (call t op).options.method (canonical (target op)) ≡ some (name op)
unfolding serve call target canonical name text_eq
served t (get_device_telemetry a b) = served_telemetry a b.bucket
served t list_devices = refl
served t op = refl

call-token : (t : Text) (op : Operation) → (call t op).options.token ≡ some t
unfolding call
call-token t list_devices = refl
call-token t op = refl

-- Every operation of the interface that is given a token that is not empty sends its request with
-- the authorization `Bearer `, followed by exactly that token.
pub call-authorized :
    (base : Text) (fetch : HttpRequest → Fetched) (t : Text) (op : Operation)
    → truthy t ≡ true
    → lookup
        (codes "Authorization")
        (request base fetch (call t op).path (call t op).options).headers
      ≡ some (codes "Bearer " ++ t)
unfolding request bearer
call-authorized base fetch t op h =
    lookup-request_headers_token (call t op).options t (call-token t op) h
