-- ===== src/Endpoints.antt =====
-- ui/lib/api/endpoints.ts: the paths of the controller's REST interface. Each function of the
-- source's `endpoints` object is a constructor, and `url` is what it returns.
pub mod Routing
use edge_guardian.Base.{ℕ, ◌++◌, Text, codes}
use edge_guardian.Decimal.{to_string}

pub data Endpoint : Type 0 where
  me organization_get organization_update organization_audit_log : Endpoint
  members_list members_create : Endpoint
  members_by_id : ℕ → Endpoint
  invitations_list : Endpoint
  invitations_by_id : ℕ → Endpoint
  api_keys_list api_keys_create : Endpoint
  api_keys_by_id : ℕ → Endpoint
  enrollment_tokens_list enrollment_tokens_create : Endpoint
  enrollment_tokens_by_id : ℕ → Endpoint
  devices_list devices_count : Endpoint
  devices_by_id devices_manifest devices_labels devices_logs devices_telemetry : Text → Endpoint
  devices_telemetry_hourly shell_sessions : Text → Endpoint
  shell_ws : Endpoint
  certificates_list certificates_ca : Endpoint
  certificates_revoke : ℕ → Endpoint
  requests_list : Endpoint
  requests_approve requests_reject : ℕ → Endpoint
  agent_installer : Endpoint

-- `API_PREFIX`
abbrev pub api_prefix : Text
api_prefix = codes "/api/v1"

-- `path(suffix)`
abbrev pub prefixed : Text → Text
prefixed suffix = api_prefix ++ suffix

-- `/devices/${deviceId}` and what follows
abbrev pub device_path : Text → Text → Text
device_path id rest = codes "/devices/" ++ id ++ rest

-- The arguments of `path` in the `endpoints` object.
unfoldable pub suffix : Endpoint → Text
suffix me = codes "/me"
suffix organization_get = codes "/organization"
suffix organization_update = codes "/organization"
suffix organization_audit_log = codes "/organization/audit-log"
suffix members_list = codes "/organization/members"
suffix members_create = codes "/organization/members"
suffix (members_by_id n) = codes "/organization/members/" ++ to_string n
suffix invitations_list = codes "/organization/invitations"
suffix (invitations_by_id n) = codes "/organization/invitations/" ++ to_string n
suffix api_keys_list = codes "/api-keys"
suffix api_keys_create = codes "/api-keys"
suffix (api_keys_by_id n) = codes "/api-keys/" ++ to_string n
suffix enrollment_tokens_list = codes "/enrollment-tokens"
suffix enrollment_tokens_create = codes "/enrollment-tokens"
suffix (enrollment_tokens_by_id n) = codes "/enrollment-tokens/" ++ to_string n
suffix devices_list = codes "/devices"
suffix devices_count = codes "/devices/count"
suffix (devices_by_id id) = codes "/devices/" ++ id
suffix (devices_manifest id) = device_path id (codes "/manifest")
suffix (devices_labels id) = device_path id (codes "/labels")
suffix (devices_logs id) = device_path id (codes "/logs")
suffix (devices_telemetry id) = device_path id (codes "/telemetry")
suffix (devices_telemetry_hourly id) = device_path id (codes "/telemetry/hourly")
suffix (shell_sessions id) = device_path id (codes "/shell/sessions")
suffix shell_ws = codes "/devices/shell/ws"
suffix certificates_list = codes "/certificates"
suffix certificates_ca = codes "/certificates/ca"
suffix (certificates_revoke n) = codes "/certificates/" ++ to_string n ++ codes "/revoke"
suffix requests_list = codes "/certificates/requests"
suffix (requests_approve n) = codes "/certificates/requests/" ++ to_string n ++ codes "/approve"
suffix (requests_reject n) = codes "/certificates/requests/" ++ to_string n ++ codes "/reject"
suffix agent_installer = codes "/agent/installer"

unfoldable pub url : Endpoint → Text
unfolding suffix
url e = prefixed (suffix e)
