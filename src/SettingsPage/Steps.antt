-- ===== src/SettingsPage/Steps.antt =====
-- ui/app/(dashboard)/settings/page.tsx: what can happen on the page, as one type of events.
pub mod Targets
use edge_guardian.Base.{Bool, false, Option, none, some, List, [], ◌∷◌, Text, codes}
use edge_guardian.Api.Organizations.{
  Organization, OrgMember, EnrollmentToken, ApiKeyEntry, InviteStatus,
}
use edge_guardian.SettingsPage.{
  PageState, type_name, type_description, update_started, update_succeeded, update_failed,
  member_added, member_removed, invitation_revoked, token_created, token_deleted,
  token_open_changed, api_key_created, api_key_deleted, api_key_open_changed, api_key_cancelled,
  failed,
}
use edge_guardian.SettingsPage.Requests.{
  tab_changed, set_invite_open, set_invite_email, set_invite_role, set_token_desc,
  set_token_max_uses, token_cancelled, set_api_key_name, ask_remove_member, ask_delete_token,
  ask_delete_key, remove_dialog_changed, delete_token_dialog_changed, delete_key_dialog_changed,
}

-- The `useState` values, before the organization is loaded.
abbrev pub fresh_page : PageState
fresh_page = record {
  org = none;
  org_name = none;
  org_desc = none;
  org_dirty = false;
  invite_open = false;
  invite_email = [];
  invite_role = codes "VIEWER";
  remove_member_target = none;
  token_open = false;
  token_desc = [];
  token_max_uses = codes "100";
  created_token = none;
  delete_token_target = none;
  api_key_open = false;
  api_key_name = [];
  created_key = none;
  delete_key_target = none;
}

-- What the user does.
pub data Action : Type 0 where
  tab name description email role token_name max_uses key_name : Text → Action
  invite_dialog token_dialog key_dialog : Bool → Action
  remove_dialog token_delete_dialog key_delete_dialog : Bool → Action
  token_cancel key_cancel update : Action
  member_bin : OrgMember → Action
  token_bin : EnrollmentToken → Action
  key_bin : ApiKeyEntry → Action

unfoldable pub act : Action → PageState → PageState
unfolding type_name type_description update_started token_open_changed api_key_open_changed
    api_key_cancelled tab_changed set_invite_open set_invite_email set_invite_role set_token_desc
    set_token_max_uses token_cancelled set_api_key_name ask_remove_member ask_delete_token
    ask_delete_key remove_dialog_changed delete_token_dialog_changed delete_key_dialog_changed
act (tab v) s = tab_changed v s
act (name v) s = type_name v s
act (description v) s = type_description v s
act (email v) s = set_invite_email v s
act (role v) s = set_invite_role v s
act (token_name v) s = set_token_desc v s
act (max_uses v) s = set_token_max_uses v s
act (key_name v) s = set_api_key_name v s
act (invite_dialog b) s = set_invite_open b s
act (token_dialog b) s = token_open_changed b s
act (key_dialog b) s = api_key_open_changed b s
act (remove_dialog b) s = remove_dialog_changed b s
act (token_delete_dialog b) s = delete_token_dialog_changed b s
act (key_delete_dialog b) s = delete_key_dialog_changed b s
act token_cancel s = token_cancelled s
act key_cancel s = api_key_cancelled s
act update s = (update_started s).0
act (member_bin m) s = ask_remove_member m s
act (token_bin t) s = ask_delete_token t s
act (key_bin k) s = ask_delete_key k s

-- What the cache and the mutations report.
pub data Report : Type 0 where
  loaded : Organization → Report
  updated member_gone invitation_gone token_gone key_gone : Report
  update_error : Text → Option Organization → Report
  error : Text → Report
  member_there : InviteStatus → Report
  token_there key_there : Text → Report

unfoldable pub receive : Report → PageState → PageState
unfolding update_succeeded update_failed member_added member_removed invitation_revoked
    token_created token_deleted api_key_created api_key_deleted failed
receive (loaded o) s = record s { org = some o }
receive updated s = (update_succeeded s).0
receive (update_error message previous) s = (update_failed message previous s).0
receive (error message) s = (failed message s).0
receive (member_there status) s = (member_added status s).0
receive member_gone s = (member_removed s).0
receive invitation_gone s = (invitation_revoked s).0
receive (token_there secret) s = (token_created secret s).0
receive token_gone s = (token_deleted s).0
receive (key_there secret) s = (api_key_created secret s).0
receive key_gone s = (api_key_deleted s).0

pub data SettingsEvent : Type 0 where
  action : Action → SettingsEvent
  report : Report → SettingsEvent

unfoldable pub step : SettingsEvent → PageState → PageState
unfolding act receive
step (action a) s = act a s
step (report r) s = receive r s

unfoldable pub run : List SettingsEvent → PageState → PageState
unfolding step
run [] s = s
run (e ∷ es) s = run es (step e s)
