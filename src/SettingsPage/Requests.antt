-- ===== src/SettingsPage/Requests.antt =====
-- ui/app/(dashboard)/settings/page.tsx: the setters of its fields and dialogs, and the requests that
-- its buttons send. A button that is disabled sends nothing; `is_pending` tells whether the mutation
-- of the button runs.
use edge_guardian.Base.{
  true, false, ◌++◌, codes, ℕ, Bool, false, not, ◌&&◌, ◌||◌, Option, none, some, Text, codes,
  truthy, text_eq, if◌then◌else◌,
}
use edge_guardian.Api.Request.{Call}
use edge_guardian.Api.Organizations.{
  OrgMember, EnrollmentToken, ApiKeyEntry, Invitation, get_organization, update_organization,
  list_members, invite_member, remove_member, list_invitations, revoke_invitation,
  list_enrollment_tokens, create_enrollment_token, delete_enrollment_token, list_api_keys,
  create_api_key, delete_api_key,
}
use edge_guardian.Organization.{unset}
use edge_guardian.ConfirmDialog.{confirm_clicked}
use edge_guardian.SettingsPage.{PageState, init_org_form, shown_name, shown_description}

-- The five queries, which wait for the token and the current organization.
pub data Section : Type 0 where
  organization members invitations tokens keys : Section

abbrev pub section_call : Section → Text → Call
section_call organization = get_organization
section_call members = list_members
section_call invitations = list_invitations
section_call tokens = list_enrollment_tokens
section_call keys = list_api_keys

unfoldable pub section_query : Section → Text → Option ℕ → Option Call
section_query section token org_id =
    if truthy token && not (unset org_id) then some (section_call section token) else none

-- `onValueChange` of the tabs
unfoldable pub tab_changed : Text → PageState → PageState
unfolding text_eq init_org_form
tab_changed v s = if text_eq v (codes "general") then init_org_form s else s

-- The setters of the dialog that invites
unfoldable pub set_invite_open : Bool → PageState → PageState
set_invite_open b s = record s { invite_open = b }

unfoldable pub set_invite_email : Text → PageState → PageState
set_invite_email text s = record s { invite_email = text }

unfoldable pub set_invite_role : Text → PageState → PageState
set_invite_role role s = record s { invite_role = role }

-- The setters of the dialog of the tokens; `Cancel` leaves the created token.
unfoldable pub set_token_desc : Text → PageState → PageState
set_token_desc text s = record s { token_desc = text }

unfoldable pub set_token_max_uses : Text → PageState → PageState
set_token_max_uses text s = record s { token_max_uses = text }

unfoldable pub token_cancelled : PageState → PageState
token_cancelled s = record s { token_open = false }

unfoldable pub set_api_key_name : Text → PageState → PageState
set_api_key_name text s = record s { api_key_name = text }

-- The buttons with the bin; an owner has none.
unfoldable pub can_remove : OrgMember → Bool
unfolding text_eq
can_remove m = not (text_eq m.role (codes "OWNER"))

unfoldable pub ask_remove_member : OrgMember → PageState → PageState
unfolding can_remove
ask_remove_member m s = if can_remove m then record s { remove_member_target = some m } else s

unfoldable pub ask_delete_token : EnrollmentToken → PageState → PageState
ask_delete_token t s = record s { delete_token_target = some t }

unfoldable pub ask_delete_key : ApiKeyEntry → PageState → PageState
ask_delete_key k s = record s { delete_key_target = some k }

-- `onOpenChange` of the three confirmations
unfoldable pub remove_dialog_changed : Bool → PageState → PageState
remove_dialog_changed v s = if v then s else record s { remove_member_target = none }

unfoldable pub delete_token_dialog_changed : Bool → PageState → PageState
delete_token_dialog_changed v s = if v then s else record s { delete_token_target = none }

unfoldable pub delete_key_dialog_changed : Bool → PageState → PageState
delete_key_dialog_changed v s = if v then s else record s { delete_key_target = none }

-- The requests. `Number` of the text of a number field is a parameter.
module _ (number : Text → ℕ) (token : Text) (is_pending : Bool) where
  unfoldable pub save_organization_clicked : PageState → Option Call
  unfolding shown_name shown_description update_organization
  save_organization_clicked s =
      if not s.org_dirty || is_pending
      then none
      else some (update_organization token (some (shown_name s)) (some (shown_description s)))

  unfoldable pub invite_clicked : PageState → Option Call
  unfolding invite_member
  invite_clicked s =
      if not (truthy s.invite_email) || is_pending
      then none
      else some (invite_member token s.invite_email s.invite_role)

  unfoldable pub revoke_invitation_clicked : Invitation → Option Call
  unfolding revoke_invitation
  revoke_invitation_clicked i = if is_pending then none else some (revoke_invitation token i.id)

  unfoldable pub create_token_clicked : PageState → Option Call
  unfolding create_enrollment_token
  create_token_clicked s =
      if not (truthy s.token_desc) || is_pending
      then none
      else some (create_enrollment_token token s.token_desc (number s.token_max_uses))

  unfoldable pub create_api_key_clicked : PageState → Option Call
  unfolding create_api_key
  create_api_key_clicked s =
      if not (truthy s.api_key_name) || is_pending
      then none
      else some (create_api_key token s.api_key_name)

  unfoldable pub remove_confirmed : PageState → Option Call
  unfolding confirm_clicked remove_member
  remove_confirmed s =
      confirm_clicked is_pending
        (elim (s.remove_member_target) [ none ↦ none | some m ↦ some (remove_member token m.id) ])

  unfoldable pub delete_token_confirmed : PageState → Option Call
  unfolding confirm_clicked delete_enrollment_token
  delete_token_confirmed s = confirm_clicked is_pending (elim (s.delete_token_target) [
    | none ↦ none
    | some t ↦ some (delete_enrollment_token token t.id)
  ])

  unfoldable pub delete_key_confirmed : PageState → Option Call
  unfolding confirm_clicked delete_api_key
  delete_key_confirmed s =
      confirm_clicked is_pending
        (elim (s.delete_key_target) [ none ↦ none | some k ↦ some (delete_api_key token k.id) ])

-- What the buttons that copy do: the clipboard, the two marks that a timer takes back, and the origin
-- that an effect reads once.
pub record Copying : Type 0 where
  pub clipboard : Option Text
  pub copied : Bool
  pub usage_copied : Bool
  pub origin : Text

unfoldable pub set_origin : Text → Copying → Copying
set_origin origin c = record c { origin = origin }

-- `apiKeyUsageExample`
unfoldable pub api_key_usage_example : Text → Text
api_key_usage_example origin =
    codes "curl -H \"X-API-Key: YOUR_API_KEY\" \\\n  " ++ origin ++ codes "/api/v1/devices"

-- The key that was created is there only while its box is drawn.
unfoldable pub copy_key : PageState → Copying → Copying
copy_key s c = elim (s.created_key) [
  | none ↦ c
  | some key ↦ if truthy key then record c { clipboard = some key; copied = true } else c
]

unfoldable pub key_timeout : Copying → Copying
key_timeout c = record c { copied = false }

unfoldable pub copy_usage : Copying → Copying
unfolding api_key_usage_example
copy_usage c = record c { clipboard = some (api_key_usage_example c.origin); usage_copied = true }

unfoldable pub usage_timeout : Copying → Copying
usage_timeout c = record c { usage_copied = false }

-- The dialog shows the created token in place of its form, with a button that copies it.
unfoldable pub copy_token : PageState → Copying → Copying
copy_token s c = elim (s.created_token) [
  | none ↦ c
  | some secret ↦ if truthy secret then record c { clipboard = some secret } else c
]
