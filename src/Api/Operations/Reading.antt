-- ===== src/Api/Operations/Reading.antt =====
-- How a server reads a whole call: the operation from the method and the path, and its arguments
-- from the path and the JSON text of the body.
pub mod Laws
use edge_guardian.Base.{ℕ, Option, none, some, List, [], ◌∷◌, Text, codes, lookup}
use edge_guardian.Endpoints.{
  Endpoint, api_keys_by_id, certificates_revoke, devices_by_id, devices_labels, devices_manifest,
  devices_logs, devices_telemetry, devices_telemetry_hourly, enrollment_tokens_by_id,
  invitations_by_id, members_by_id, requests_approve, requests_reject, shell_sessions,
}
use edge_guardian.Endpoints.Routing.{route, split_path}
use edge_guardian.Query.RoundTrip.{parse_query}
use edge_guardian.Json.{Scalar, str, num}
use edge_guardian.Json.Reading.{read_object}
use edge_guardian.Api.Request.{Call}
use edge_guardian.Api.Devices.{TelemetryBucket, hourly}
use edge_guardian.Api.Operations.{Operation}
use edge_guardian.Api.Operations.Server.{cut_query, Name, name, serve}
use edge_guardian.Api.Operations.Params.{Pairs, after_query, read_log_params, read_audit_params}

abbrev pub Fields : Type 0
Fields = List (Text × Scalar)

infixl 5 ◌>>=◌
abbrev pub ◌>>=◌ : {A B : Type 0} → Option A → (A → Option B) → Option B
none >>= f = none
some a >>= f = f a

abbrev as_text : Option Scalar → Option Text
as_text (some (str s)) = some s
as_text _ = none

abbrev as_number : Option Scalar → Option ℕ
as_number (some (num n)) = some n
as_number _ = none

-- The member of an object by its name.
unfoldable text_of : Text → Fields → Option Text
unfolding lookup
text_of k fs = as_text (lookup k fs)

unfoldable number_of : Text → Fields → Option ℕ
unfolding lookup
number_of k fs = as_number (lookup k fs)

abbrev both : {A B : Type 0} → Option A → Option B → Option (A × B)
both (some a) (some b) = some (a, b)
both _ _ = none

-- An object whose members are all texts.
unfoldable pub texts_of : Fields → Option (List (Text × Text))
texts_of [] = some []
texts_of ((k, str v) ∷ fs) = texts_of fs >>= λ rest. some ((k, v) ∷ rest)
texts_of ((k, num n) ∷ fs) = none

unfoldable telemetry : Text → Option TelemetryBucket → Pairs → Option Operation
unfolding lookup
telemetry id bucket q = do
  start ← lookup (codes "start") q
  end ← lookup (codes "end") q
  some (Operation.get_device_telemetry id (record { start = start; end = end; bucket = bucket }))

-- The operation with its arguments.
unfoldable pub arguments : Name → Endpoint → Pairs → Fields → Option Operation
unfolding text_of number_of texts_of telemetry read_log_params read_audit_params
arguments Name.list_certificate_requests e q fs = some Operation.list_certificate_requests
arguments Name.list_certificates e q fs = some Operation.list_certificates
arguments Name.approve_cert_request (requests_approve n) q fs =
    some (Operation.approve_cert_request n)
arguments Name.reject_cert_request (requests_reject n) q fs = do
  reason ← text_of (codes "reason") fs
  some (Operation.reject_cert_request n (some reason))
arguments Name.revoke_certificate (certificates_revoke n) q fs =
    some (Operation.revoke_certificate n)
arguments Name.get_ca_cert e q fs = some Operation.get_ca_cert
arguments Name.list_devices e q fs = some Operation.list_devices
arguments Name.get_device (devices_by_id id) q fs = some (Operation.get_device id)
arguments Name.delete_device (devices_by_id id) q fs = some (Operation.delete_device id)
arguments Name.get_device_count e q fs = some Operation.get_device_count
arguments Name.get_device_manifest (devices_manifest id) q fs =
    some (Operation.get_device_manifest id)
arguments Name.update_device_manifest (devices_manifest id) q fs = do
  content ← text_of (codes "content") fs
  some (Operation.update_device_manifest id content)
arguments Name.update_device_labels (devices_labels id) q fs = do
  labels ← texts_of fs
  some (Operation.update_device_labels id labels)
arguments Name.get_me e q fs = some Operation.get_me
arguments Name.get_organization e q fs = some Operation.get_organization
arguments Name.update_organization e q fs =
    some
      (Operation.update_organization (text_of (codes "name") fs) (text_of (codes "description") fs))
arguments Name.list_members e q fs = some Operation.list_members
arguments Name.invite_member e q fs = do
  email ← text_of (codes "email") fs
  role ← text_of (codes "role") fs
  some (Operation.invite_member email role)
arguments Name.remove_member (members_by_id n) q fs = some (Operation.remove_member n)
arguments Name.list_invitations e q fs = some Operation.list_invitations
arguments Name.revoke_invitation (invitations_by_id n) q fs = some (Operation.revoke_invitation n)
arguments Name.update_member_role (members_by_id n) q fs = do
  role ← text_of (codes "role") fs
  some (Operation.update_member_role n role)
arguments Name.list_enrollment_tokens e q fs = some Operation.list_enrollment_tokens
arguments Name.create_enrollment_token e q fs = do
  description ← text_of (codes "description") fs
  max_uses ← number_of (codes "maxUses") fs
  some (Operation.create_enrollment_token description max_uses)
arguments Name.delete_enrollment_token (enrollment_tokens_by_id n) q fs =
    some (Operation.delete_enrollment_token n)
arguments Name.list_api_keys e q fs = some Operation.list_api_keys
arguments Name.create_api_key e q fs = do
  name ← text_of (codes "name") fs
  some (Operation.create_api_key name)
arguments Name.delete_api_key (api_keys_by_id n) q fs = some (Operation.delete_api_key n)
arguments Name.create_shell_session (shell_sessions id) q fs = do
  rows ← number_of (codes "rows") fs
  cols ← number_of (codes "cols") fs
  some (Operation.create_shell_session id rows cols)
arguments Name.get_device_logs (devices_logs id) q fs =
    some (Operation.get_device_logs id (some (read_log_params q)))
arguments Name.get_device_telemetry (devices_telemetry id) q fs = telemetry id none q
arguments Name.get_device_telemetry (devices_telemetry_hourly id) q fs =
    telemetry id (some hourly) q
arguments Name.list_audit_log e q fs = some (Operation.list_audit_log (some (read_audit_params q)))
arguments _ _ q fs = none

-- No body has no members.
abbrev pub fields : Option Text → Option Fields
fields none = some []
fields (some body) = read_object body

pub read_operation : Call → Option Operation
unfolding arguments
read_operation c = do
  e ← route (split_path (cut_query c.path))
  n ← serve c.options.method e
  fs ← fields c.options.body
  arguments n e (parse_query (after_query c.path)) fs
