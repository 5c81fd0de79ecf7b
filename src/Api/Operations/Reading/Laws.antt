-- ===== src/Api/Operations/Reading/Laws.antt =====
-- A server that reads a call has the operation with all its arguments.
use edge_guardian.Base.{
  Option, none, some, List, [], ◌∷◌, Text, codes, text_eq, All, append-nil, ◌++◌, ◌≡◌, refl, get_or,
  map, ap, ◌∙◌,
}
use edge_guardian.Endpoints.{url, devices_list, devices_logs, organization_audit_log}
use edge_guardian.Endpoints.Routing.{canonical, route-url}
use edge_guardian.Api.Operations.Kept.{IsKept, IsKept-IsAddressable, IsKept-IsRoutable}
use edge_guardian.Query.{utf8, query_string}
use edge_guardian.Query.RoundTrip.{parse_query, parse_query-query_string, utf8_pair, IsUnicode}
use edge_guardian.Json.Reading.RoundTrip.{read_object-stringify}
use edge_guardian.Api.Devices.{text_member, log_query, TelemetryBucket, hourly, raw}
use edge_guardian.Api.Organizations.{audit_query, question}
use edge_guardian.Api.Operations.{Operation, call, target, telemetry_endpoint}
use edge_guardian.Api.Operations.Server.{Name, name}
use edge_guardian.Api.Operations.Laws.{
  IsAddressable, cut_query-call, served, NoQuery, url-NoQuery, telemetry_url-eq,
}
use edge_guardian.Api.Operations.Params.{Pairs, after_query, sent_log_params, sent_audit_params}
use edge_guardian.Api.Operations.Params.Lookup.{after_query-append, after_query_none}
use edge_guardian.Api.Operations.Params.Laws.{read_log_params-map, read_audit_params-map}
use edge_guardian.Api.Operations.Reading.{◌>>=◌, fields, arguments, texts_of, read_operation}

abbrev hourly_or_not : Option TelemetryBucket → Option TelemetryBucket
hourly_or_not (some hourly) = some hourly
hourly_or_not _ = none

-- What the call of an operation says of it: a rejection without a reason has an empty one, an empty
-- text and a limit of zero are not sent in a query, whose texts are read in UTF-8, and the telemetry
-- is hourly or not.
abbrev pub settled : Operation → Operation
settled (Operation.reject_cert_request n reason) =
    Operation.reject_cert_request n (some (get_or reason []))
settled (Operation.get_device_logs id p) = Operation.get_device_logs id (some (sent_log_params p))
settled (Operation.get_device_telemetry id p) =
    Operation.get_device_telemetry id
      (record { start = utf8 p.start; end = utf8 p.end; bucket = hourly_or_not p.bucket })
settled (Operation.list_audit_log p) = Operation.list_audit_log (some (sent_audit_params p))
settled op = op

-- The parameters of the query.
abbrev pairs : Operation → Pairs
pairs (Operation.get_device_logs id p) = log_query p
pairs (Operation.get_device_telemetry id p) = (codes "start", p.start) ∷ (codes "end", p.end) ∷ []
pairs (Operation.list_audit_log p) = audit_query p
pairs _ = []

-- The texts of the query are Unicode.
abbrev pub IsUnicodeQuery : Operation → Type 0
IsUnicodeQuery op = All IsUnicode (pairs op)

texts_of-text_member :
    (labels : List (Text × Text)) → texts_of (map text_member labels) ≡ some labels
unfolding texts_of
texts_of-text_member [] = refl
texts_of-text_member ((k, v) ∷ labels) = rw (texts_of-text_member labels) refl

after_query-question : (s q : Text) → NoQuery s → after_query (s ++ question q) ≡ q
after_query-question s [] h = rw append-nil (after_query_none s h)
after_query-question s (c ∷ q) h = after_query-append s (c ∷ q) h

after_query-call :
    (t : Text) (op : Operation)
    → IsAddressable (target op)
    → after_query (call t op).path ≡ query_string (pairs op)
unfolding call target query_string
after_query-call t (Operation.get_device_logs a b) h =
    after_query-append (url (devices_logs a)) _ (url-NoQuery (devices_logs a) h)
after_query-call t (Operation.get_device_telemetry a b) h = rw telemetry_url-eq (
    after_query-append (url (telemetry_endpoint a b.bucket)) _
      (url-NoQuery (telemetry_endpoint a b.bucket) h))
after_query-call t (Operation.list_audit_log a) h =
    after_query-question (url organization_audit_log) _ (url-NoQuery organization_audit_log h)
after_query-call t Operation.list_devices h =
    after_query_none (url devices_list) (url-NoQuery devices_list h)
after_query-call t op h = after_query_none (url (target op)) (url-NoQuery (target op) h)

-- The query as a server parses it.
parse_query-call :
    (t : Text) (op : Operation)
    → IsAddressable (target op)
    → IsUnicodeQuery op
    → parse_query (after_query (call t op).path) ≡ map utf8_pair (pairs op)
parse_query-call t op a u =
    ap parse_query (after_query-call t op a) ∙ parse_query-query_string (pairs op) u

telemetry-arguments :
    (id from to : Text) (b : Option TelemetryBucket)
    → arguments Name.get_device_telemetry
        (canonical (telemetry_endpoint id b))
        (utf8_pair (codes "start", from) ∷ utf8_pair (codes "end", to) ∷ [])
        []
      ≡ some (
          Operation.get_device_telemetry id
            (record { start = utf8 from; end = utf8 to; bucket = hourly_or_not b }))
unfolding arguments text_eq utf8 canonical
telemetry-arguments id from to none = refl
telemetry-arguments id from to (some raw) = refl
telemetry-arguments id from to (some hourly) = refl

arguments-call :
    (t : Text) (op : Operation)
    → (fields (call t op).options.body
        >>= arguments (name op) (canonical (target op)) (map utf8_pair (pairs op)))
      ≡ some (settled op)
unfolding call target canonical name arguments text_eq
arguments-call t (Operation.reject_cert_request n reason) = rw read_object-stringify refl
arguments-call t (Operation.update_device_manifest id content) = rw read_object-stringify refl
arguments-call t (Operation.update_device_labels id labels) =
    rw (read_object-stringify, texts_of-text_member labels) refl
arguments-call t (Operation.update_organization none none) = rw read_object-stringify refl
arguments-call t (Operation.update_organization none (some b)) = rw read_object-stringify refl
arguments-call t (Operation.update_organization (some a) none) = rw read_object-stringify refl
arguments-call t (Operation.update_organization (some a) (some b)) = rw read_object-stringify refl
arguments-call t (Operation.invite_member a b) = rw read_object-stringify refl
arguments-call t (Operation.update_member_role a b) = rw read_object-stringify refl
arguments-call t (Operation.create_enrollment_token a b) = rw read_object-stringify refl
arguments-call t (Operation.create_api_key a) = rw read_object-stringify refl
arguments-call t (Operation.create_shell_session a b c) = rw read_object-stringify refl
arguments-call t Operation.list_certificates = refl
arguments-call t (Operation.get_device_logs a b) =
    ap (λ p. some (Operation.get_device_logs a (some p))) (read_log_params-map b)
arguments-call t (Operation.get_device_telemetry a b) = telemetry-arguments a b.start b.end b.bucket
arguments-call t (Operation.list_audit_log a) =
    ap (λ p. some (Operation.list_audit_log (some p))) (read_audit_params-map a)
arguments-call t op = refl

-- The server reads each operation with exactly the arguments that it was called with, from the path,
-- the query and the body, whatever its texts hold, as long as a device identifier is one that an
-- address carries as it is, which is not empty, not `.` or `..`, holds only letters and digits without
-- accents and the signs - _ . : ~, and is not `count` where the path is that of the device itself, and
-- the texts of a query are Unicode. What the calls do not tell apart is read as one: a rejection without
-- a reason and with an empty one, a text of a query that is empty and one that is not given, a limit of
-- zero and none, and the raw telemetry and that without a bucket.
pub read_operation-call :
    (t : Text) (op : Operation)
    → IsUnicodeQuery op
    → IsKept (target op)
    → read_operation (call t op) ≡ some (settled op)
unfolding read_operation
read_operation-call t op u k =
    let a = IsKept-IsAddressable (target op) k in
    let r = IsKept-IsRoutable (target op) k in
    rw (cut_query-call t op a, route-url (target op) r, served t op, parse_query-call t op a u)
      (arguments-call t op)
