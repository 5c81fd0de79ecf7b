-- ===== src/Api/Operations/Server.antt =====
-- How a server reads the calls of ui/lib/api: the specification that the operations meet.
use edge_guardian.Base.{
  Option, none, some, [], ◌∷◌, Bool, false, Text, text_eq, if◌then◌else◌, ◌==◌, is_some,
}
use edge_guardian.Endpoints.{
  Endpoint, api_keys_by_id, api_keys_list, certificates_ca, certificates_list, certificates_revoke,
  devices_by_id, devices_count, devices_labels, devices_list, devices_logs, devices_manifest,
  devices_telemetry, devices_telemetry_hourly, enrollment_tokens_by_id, enrollment_tokens_list,
  invitations_by_id, invitations_list, me, members_by_id, members_list, organization_audit_log,
  organization_get, requests_approve, requests_list, requests_reject, shell_sessions,
}
use edge_guardian.Api.Request.{post, put, patch, delete}
use edge_guardian.Api.Operations.{Operation}

-- What precedes the query.
unfoldable pub cut_query : Text → Text
cut_query [] = []
cut_query (c ∷ s) = let rest = c ∷ cut_query s in if c == b'?' then [] else rest

-- The operations without their arguments.
pub data Name : Type 0 where
  list_certificate_requests list_certificates approve_cert_request reject_cert_request
        revoke_certificate get_ca_cert list_devices get_device delete_device get_device_count
        get_device_manifest get_device_logs update_device_manifest update_device_labels
        get_device_telemetry get_me get_organization update_organization list_members invite_member
        remove_member list_invitations revoke_invitation update_member_role list_enrollment_tokens
        create_enrollment_token delete_enrollment_token list_api_keys create_api_key delete_api_key
        list_audit_log create_shell_session :
      Name

-- The operation that an operation is, without its arguments.
unfoldable pub name : Operation → Name
name Operation.list_certificate_requests = list_certificate_requests
name Operation.list_certificates = list_certificates
name (Operation.approve_cert_request _) = approve_cert_request
name (Operation.reject_cert_request _ _) = reject_cert_request
name (Operation.revoke_certificate _) = revoke_certificate
name Operation.get_ca_cert = get_ca_cert
name Operation.list_devices = list_devices
name (Operation.get_device _) = get_device
name (Operation.delete_device _) = delete_device
name Operation.get_device_count = get_device_count
name (Operation.get_device_manifest _) = get_device_manifest
name (Operation.get_device_logs _ _) = get_device_logs
name (Operation.update_device_manifest _ _) = update_device_manifest
name (Operation.update_device_labels _ _) = update_device_labels
name (Operation.get_device_telemetry _ _) = get_device_telemetry
name Operation.get_me = get_me
name Operation.get_organization = get_organization
name (Operation.update_organization _ _) = update_organization
name Operation.list_members = list_members
name (Operation.invite_member _ _) = invite_member
name (Operation.remove_member _) = remove_member
name Operation.list_invitations = list_invitations
name (Operation.revoke_invitation _) = revoke_invitation
name (Operation.update_member_role _ _) = update_member_role
name Operation.list_enrollment_tokens = list_enrollment_tokens
name (Operation.create_enrollment_token _ _) = create_enrollment_token
name (Operation.delete_enrollment_token _) = delete_enrollment_token
name Operation.list_api_keys = list_api_keys
name (Operation.create_api_key _) = create_api_key
name (Operation.delete_api_key _) = delete_api_key
name (Operation.list_audit_log _) = list_audit_log
name (Operation.create_shell_session _ _ _) = create_shell_session

-- The operation of a method at an endpoint; no method is a GET.
abbrev pub is_method : Option Text → Text → Bool
is_method none m = false
is_method (some n) m = text_eq n m

unfoldable pub serve : Option Text → Endpoint → Option Name
serve m me = (if is_some m then none else some get_me)
serve m organization_get =
    (if is_some m
      then (if is_method m put then some update_organization else none)
      else some get_organization)
serve m organization_audit_log = (if is_some m then none else some list_audit_log)
serve m members_list =
    (if is_some m
      then (if is_method m post then some invite_member else none)
      else some list_members)
serve m (members_by_id _) =
    (if is_method m delete
      then some remove_member
      else (if is_method m patch then some update_member_role else none))
serve m invitations_list = (if is_some m then none else some list_invitations)
serve m (invitations_by_id _) = (if is_method m delete then some revoke_invitation else none)
serve m api_keys_list =
    (if is_some m
      then (if is_method m post then some create_api_key else none)
      else some list_api_keys)
serve m (api_keys_by_id _) = (if is_method m delete then some delete_api_key else none)
serve m enrollment_tokens_list =
    (if is_some m
      then (if is_method m post then some create_enrollment_token else none)
      else some list_enrollment_tokens)
serve m (enrollment_tokens_by_id _) =
    (if is_method m delete then some delete_enrollment_token else none)
serve m devices_list = (if is_some m then none else some list_devices)
serve m devices_count = (if is_some m then none else some get_device_count)
serve m (devices_by_id _) =
    (if is_some m
      then (if is_method m delete then some delete_device else none)
      else some get_device)
serve m (devices_manifest _) =
    (if is_some m
      then (if is_method m put then some update_device_manifest else none)
      else some get_device_manifest)
serve m (devices_labels _) = (if is_method m put then some update_device_labels else none)
serve m (devices_logs _) = (if is_some m then none else some get_device_logs)
serve m (devices_telemetry _) = (if is_some m then none else some get_device_telemetry)
serve m (devices_telemetry_hourly _) = (if is_some m then none else some get_device_telemetry)
serve m (shell_sessions _) = (if is_method m post then some create_shell_session else none)
serve m certificates_list = (if is_some m then none else some list_certificates)
serve m certificates_ca = (if is_some m then none else some get_ca_cert)
serve m (certificates_revoke _) = (if is_method m post then some revoke_certificate else none)
serve m requests_list = (if is_some m then none else some list_certificate_requests)
serve m (requests_approve _) = (if is_method m post then some approve_cert_request else none)
serve m (requests_reject _) = (if is_method m post then some reject_cert_request else none)
serve m _ = none
