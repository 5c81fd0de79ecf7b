-- ===== src/Api/Organizations.antt =====
-- ui/lib/api/organizations.ts.
use edge_guardian.Base.{
  ℕ, Option, none, some, List, [], ◌∷◌, ◌++◌, Text, codes, truthy, if◌then◌else◌, insert,
}
use edge_guardian.Decimal.{to_string}
use edge_guardian.Query.{query_string}
use edge_guardian.Endpoints.{
  url, me, organization_get, organization_update, organization_audit_log, members_list,
  members_create, members_by_id, invitations_list, invitations_by_id, api_keys_list,
  api_keys_create, api_keys_by_id, enrollment_tokens_list, enrollment_tokens_create,
  enrollment_tokens_by_id, agent_installer,
}
use edge_guardian.Json.{Scalar, str, num}
use edge_guardian.Api.Request.{Call, get, send, send_json, post, put, patch, delete}

pub record Organization : Type 0 where
  pub id : ℕ
  pub name : Text
  pub slug : Text
  pub description : Option Text
  pub created_at : Text

-- The types that the source writes inside `MeResponse`.
pub record MeUser : Type 0 where
  pub id : ℕ
  pub email : Text
  pub display_name : Text
  pub avatar_url : Option Text
  pub created_at : Text

pub record MeOrganization : Type 0 where
  pub id : ℕ
  pub name : Text
  pub slug : Text
  pub role : Text

pub record MeResponse : Type 0 where
  pub user : MeUser
  pub organizations : List MeOrganization

unfoldable pub get_me : Text → Call
get_me token = get (url me) token

unfoldable pub get_organization : Text → Call
get_organization token = get (url organization_get) token

-- A field that is undefined is left out of the JSON text.
abbrev pub optional_text : Text → Option Text → List (Text × Scalar) → List (Text × Scalar)
optional_text name none fields = fields
optional_text name (some v) fields = (name, str v) ∷ fields

unfoldable pub update_organization : Text → Option Text → Option Text → Call
update_organization token name description =
    send_json put (url organization_update)
      (optional_text (codes "name") name (optional_text (codes "description") description [])) token

pub record OrgMember : Type 0 where
  pub id : ℕ
  pub user_id : ℕ
  pub email : Option Text
  pub display_name : Option Text
  pub avatar_url : Option Text
  pub role : Text
  pub joined_at : Text

pub record EnrollmentToken : Type 0 where
  pub id : ℕ
  pub token : Text
  pub name : Text
  pub max_uses : ℕ
  pub use_count : ℕ
  pub expires_at : Option Text
  pub created_at : Text

pub record ApiKeyEntry : Type 0 where
  pub id : ℕ
  pub name : Text
  pub prefix : Text
  pub last_used_at : Option Text
  pub expires_at : Option Text
  pub created_at : Text

pub record Invitation : Type 0 where
  pub id : ℕ
  pub email : Text
  pub role : Text
  pub created_at : Text

pub data InviteStatus : Type 0 where
  added invited : InviteStatus

pub record InviteResult : Type 0 where
  pub status : InviteStatus
  pub member : Option OrgMember
  pub invitation : Option Invitation

unfoldable pub list_members : Text → Call
list_members token = get (url members_list) token

unfoldable pub invite_member : Text → Text → Text → Call
invite_member token email role =
    send_json post (url members_create) ((codes "email", str email) ∷ (codes "role", str role) ∷ [])
      token

unfoldable pub remove_member : Text → ℕ → Call
remove_member token member_id = send delete (url (members_by_id member_id)) token

unfoldable pub list_invitations : Text → Call
list_invitations token = get (url invitations_list) token

unfoldable pub revoke_invitation : Text → ℕ → Call
revoke_invitation token invitation_id = send delete (url (invitations_by_id invitation_id)) token

unfoldable pub update_member_role : Text → ℕ → Text → Call
update_member_role token member_id role =
    send_json patch (url (members_by_id member_id)) ((codes "role", str role) ∷ []) token

unfoldable pub list_enrollment_tokens : Text → Call
list_enrollment_tokens token = get (url enrollment_tokens_list) token

unfoldable pub create_enrollment_token : Text → Text → ℕ → Call
create_enrollment_token token description max_uses =
    send_json post (url enrollment_tokens_create)
      ((codes "description", str description) ∷ (codes "maxUses", num max_uses) ∷ []) token

unfoldable pub delete_enrollment_token : Text → ℕ → Call
delete_enrollment_token token token_id = send delete (url (enrollment_tokens_by_id token_id)) token

pub data Os : Type 0 where
  windows linux darwin : Os

pub data Arch : Type 0 where
  amd64 arm64 : Arch

abbrev pub os_text : Os → Text
os_text windows = codes "windows"
os_text linux = codes "linux"
os_text darwin = codes "darwin"

abbrev pub arch_text : Arch → Text
arch_text amd64 = codes "amd64"
arch_text arm64 = codes "arm64"

-- The address that the browser opens; it is given `API_BASE_URL`.
unfoldable pub build_installer_url : Text → Os → Arch → Text → Text
build_installer_url base os arch token_secret =
    base
    ++ url agent_installer
    ++ b'?'
      ∷ query_string (
          (codes "os", os_text os)
          ∷ (codes "arch", arch_text arch)
          ∷ (codes "token", token_secret)
          ∷ [])

unfoldable pub list_api_keys : Text → Call
list_api_keys token = get (url api_keys_list) token

unfoldable pub create_api_key : Text → Text → Call
create_api_key token name =
    send_json post (url api_keys_create) ((codes "name", str name) ∷ []) token

unfoldable pub delete_api_key : Text → ℕ → Call
delete_api_key token key_id = send delete (url (api_keys_by_id key_id)) token

-- `details` is the JSON text of the object.
pub record AuditLogEntry : Type 0 where
  pub id : ℕ
  pub user_id : ℕ
  pub user_email : Option Text
  pub action : Text
  pub resource_type : Text
  pub resource_id : Text
  pub details : Option Text
  pub created_at : Text

pub record AuditParams : Type 0 where
  pub page : Option ℕ
  pub size : Option ℕ
  pub action : Option Text
  pub resource_type : Option Text

-- `if (value !== undefined) q.set(name, String(value))`: zero counts here.
abbrev pub set_defined : Text → Option ℕ → List (Text × Text) → List (Text × Text)
set_defined name none q = q
set_defined name (some n) q = insert name (to_string n) q

abbrev pub set_nonempty : Text → Option Text → List (Text × Text) → List (Text × Text)
set_nonempty name none q = q
set_nonempty name (some v) q = if truthy v then insert name v q else q

unfoldable pub audit_query : Option AuditParams → List (Text × Text)
audit_query none = []
audit_query (some p) = set_nonempty (codes "resourceType") p.resource_type (
    set_nonempty (codes "action") p.action
      (set_defined (codes "size") p.size (set_defined (codes "page") p.page [])))

abbrev pub question : Text → Text
question qs = if truthy qs then b'?' ∷ qs else []

unfoldable pub list_audit_log : Text → Option AuditParams → Call
unfolding audit_query
list_audit_log token params =
    get (url organization_audit_log ++ question (query_string (audit_query params))) token
