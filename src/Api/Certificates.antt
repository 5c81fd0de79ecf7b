-- ===== src/Api/Certificates.antt =====
-- ui/lib/api/certificates.ts.
use edge_guardian.Base.{ℕ, Bool, Option, List, [], ◌∷◌, Text, codes, get_or}
use edge_guardian.Endpoints.{
  url, requests_list, certificates_list, requests_approve, requests_reject, certificates_revoke,
  certificates_ca,
}
use edge_guardian.Json.{str}
use edge_guardian.Api.Request.{Call, get, send, send_json, post}

pub record CertificateRequest : Type 0 where
  pub id : ℕ
  pub device_id : Text
  pub name : Text
  pub common_name : Text
  pub sans : List Text
  pub type : Text
  pub state : Text
  pub reject_reason : Option Text
  pub reviewed_at : Option Text
  pub created_at : Text

pub record Certificate : Type 0 where
  pub id : ℕ
  pub device_id : Text
  pub name : Text
  pub common_name : Text
  pub serial_number : Text
  pub status : Text
  pub not_before : Text
  pub not_after : Text
  pub revoked : Bool
  pub revoke_reason : Option Text
  pub created_at : Text

unfoldable pub list_certificate_requests : Text → Call
list_certificate_requests token = get (url requests_list) token

unfoldable pub list_certificates : Text → Call
list_certificates token = get (url certificates_list) token

unfoldable pub approve_cert_request : Text → ℕ → Call
approve_cert_request token request_id = send post (url (requests_approve request_id)) token

unfoldable pub reject_cert_request : Text → ℕ → Option Text → Call
reject_cert_request token request_id reason =
    send_json post (url (requests_reject request_id))
      ((codes "reason", str (get_or reason [])) ∷ []) token

unfoldable pub revoke_certificate : Text → ℕ → Call
revoke_certificate token cert_id = send post (url (certificates_revoke cert_id)) token

-- The call of `apiFetchText`.
unfoldable pub get_ca_cert : Text → Call
get_ca_cert token = get (url certificates_ca) token
