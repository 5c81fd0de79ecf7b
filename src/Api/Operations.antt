-- ===== src/Api/Operations.antt =====
-- Every operation of ui/lib/api as one type, and the endpoint that each is meant to reach.
pub mod Server
pub mod Laws
pub mod Kept
pub mod Params
pub mod Reading
use edge_guardian.Base.{ℕ, Option, some, List, Text}
use edge_guardian.Endpoints.{
  Endpoint, api_keys_by_id, api_keys_create, api_keys_list, certificates_ca, certificates_list,
  certificates_revoke, devices_by_id, devices_count, devices_labels, devices_list, devices_logs,
  devices_manifest, devices_telemetry, devices_telemetry_hourly, enrollment_tokens_by_id,
  enrollment_tokens_create, enrollment_tokens_list, invitations_by_id, invitations_list, me,
  members_by_id, members_create, members_list, organization_audit_log, organization_get,
  organization_update, requests_approve, requests_list, requests_reject, shell_sessions,
}
use edge_guardian.Api.Request.{Call}
use edge_guardian.Api.Certificates
use edge_guardian.Api.Devices
use edge_guardian.Api.Devices.{LogParams, TelemetryParams, TelemetryBucket, hourly}
use edge_guardian.Api.Organizations
use edge_guardian.Api.Organizations.{AuditParams}
use edge_guardian.Api.Shell

pub data Operation : Type 0 where
  list_certificate_requests : Operation
  list_certificates : Operation
  approve_cert_request : ℕ → Operation
  reject_cert_request : ℕ → Option Text → Operation
  revoke_certificate : ℕ → Operation
  get_ca_cert : Operation
  list_devices : Operation
  get_device : Text → Operation
  delete_device : Text → Operation
  get_device_count : Operation
  get_device_manifest : Text → Operation
  get_device_logs : Text → Option LogParams → Operation
  update_device_manifest : Text → Text → Operation
  update_device_labels : Text → List (Text × Text) → Operation
  get_device_telemetry : Text → TelemetryParams → Operation
  get_me : Operation
  get_organization : Operation
  update_organization : Option Text → Option Text → Operation
  list_members : Operation
  invite_member : Text → Text → Operation
  remove_member : ℕ → Operation
  list_invitations : Operation
  revoke_invitation : ℕ → Operation
  update_member_role : ℕ → Text → Operation
  list_enrollment_tokens : Operation
  create_enrollment_token : Text → ℕ → Operation
  delete_enrollment_token : ℕ → Operation
  list_api_keys : Operation
  create_api_key : Text → Operation
  delete_api_key : ℕ → Operation
  list_audit_log : Option AuditParams → Operation
  create_shell_session : Text → ℕ → ℕ → Operation

unfoldable pub call : Text → Operation → Call
unfolding Certificates.list_certificate_requests Certificates.list_certificates
    Certificates.approve_cert_request Certificates.reject_cert_request
    Certificates.revoke_certificate Certificates.get_ca_cert Devices.list_devices Devices.get_device
    Devices.delete_device Devices.get_device_count Devices.get_device_manifest
    Devices.get_device_logs Devices.update_device_manifest Devices.update_device_labels
    Devices.get_device_telemetry Organizations.get_me Organizations.get_organization
    Organizations.update_organization Organizations.list_members Organizations.invite_member
    Organizations.remove_member Organizations.list_invitations Organizations.revoke_invitation
    Organizations.update_member_role Organizations.list_enrollment_tokens
    Organizations.create_enrollment_token Organizations.delete_enrollment_token
    Organizations.list_api_keys Organizations.create_api_key Organizations.delete_api_key
    Organizations.list_audit_log Shell.create_shell_session
call t list_certificate_requests = Certificates.list_certificate_requests t
call t list_certificates = Certificates.list_certificates t
call t (approve_cert_request a) = Certificates.approve_cert_request t a
call t (reject_cert_request a b) = Certificates.reject_cert_request t a b
call t (revoke_certificate a) = Certificates.revoke_certificate t a
call t get_ca_cert = Certificates.get_ca_cert t
call t list_devices = Devices.list_devices t
call t (get_device a) = Devices.get_device t a
call t (delete_device a) = Devices.delete_device t a
call t get_device_count = Devices.get_device_count t
call t (get_device_manifest a) = Devices.get_device_manifest t a
call t (get_device_logs a b) = Devices.get_device_logs t a b
call t (update_device_manifest a b) = Devices.update_device_manifest t a b
call t (update_device_labels a b) = Devices.update_device_labels t a b
call t (get_device_telemetry a b) = Devices.get_device_telemetry t a b
call t get_me = Organizations.get_me t
call t get_organization = Organizations.get_organization t
call t (update_organization a b) = Organizations.update_organization t a b
call t list_members = Organizations.list_members t
call t (invite_member a b) = Organizations.invite_member t a b
call t (remove_member a) = Organizations.remove_member t a
call t list_invitations = Organizations.list_invitations t
call t (revoke_invitation a) = Organizations.revoke_invitation t a
call t (update_member_role a b) = Organizations.update_member_role t a b
call t list_enrollment_tokens = Organizations.list_enrollment_tokens t
call t (create_enrollment_token a b) = Organizations.create_enrollment_token t a b
call t (delete_enrollment_token a) = Organizations.delete_enrollment_token t a
call t list_api_keys = Organizations.list_api_keys t
call t (create_api_key a) = Organizations.create_api_key t a
call t (delete_api_key a) = Organizations.delete_api_key t a
call t (list_audit_log a) = Organizations.list_audit_log t a
call t (create_shell_session a b c) = Shell.create_shell_session t a b c

abbrev pub telemetry_endpoint : Text → Option TelemetryBucket → Endpoint
telemetry_endpoint id (some hourly) = devices_telemetry_hourly id
telemetry_endpoint id _ = devices_telemetry id

-- The endpoint that the operation is about.
unfoldable pub target : Operation → Endpoint
target list_certificate_requests = requests_list
target list_certificates = certificates_list
target (approve_cert_request a) = requests_approve a
target (reject_cert_request a _) = requests_reject a
target (revoke_certificate a) = certificates_revoke a
target get_ca_cert = certificates_ca
target list_devices = devices_list
target (get_device a) = devices_by_id a
target (delete_device a) = devices_by_id a
target get_device_count = devices_count
target (get_device_manifest a) = devices_manifest a
target (get_device_logs a _) = devices_logs a
target (update_device_manifest a _) = devices_manifest a
target (update_device_labels a _) = devices_labels a
target (get_device_telemetry a b) = telemetry_endpoint a b.bucket
target get_me = me
target get_organization = organization_get
target (update_organization _ _) = organization_update
target list_members = members_list
target (invite_member _ _) = members_create
target (remove_member a) = members_by_id a
target list_invitations = invitations_list
target (revoke_invitation a) = invitations_by_id a
target (update_member_role a _) = members_by_id a
target list_enrollment_tokens = enrollment_tokens_list
target (create_enrollment_token _ _) = enrollment_tokens_create
target (delete_enrollment_token a) = enrollment_tokens_by_id a
target list_api_keys = api_keys_list
target (create_api_key _) = api_keys_create
target (delete_api_key a) = api_keys_by_id a
target (list_audit_log _) = organization_audit_log
target (create_shell_session a _ _) = shell_sessions a
