-- ===== src/SettingsPage.antt =====
-- ui/app/(dashboard)/settings/page.tsx: the organization's form, the members, the enrollment tokens
-- and the API keys. The query cache is modelled for the organization, which the page writes itself.
pub mod General
pub mod Form
pub mod Requests
pub mod Tables
pub mod Steps
use edge_guardian.Base.{Bool, true, false, Option, none, some, List, [], ◌∷◌, Text, codes, get_or}
use edge_guardian.Api.Organizations.{
  Organization, OrgMember, EnrollmentToken, ApiKeyEntry, InviteStatus, added, invited,
}

-- The component's state, with the cached organization.
pub record PageState : Type 0 where
  pub org : Option Organization
  pub org_name : Option Text
  pub org_desc : Option Text
  pub org_dirty : Bool
  pub invite_open : Bool
  pub invite_email : Text
  pub invite_role : Text
  pub remove_member_target : Option OrgMember
  pub token_open : Bool
  pub token_desc : Text
  pub token_max_uses : Text
  pub created_token : Option Text
  pub delete_token_target : Option EnrollmentToken
  pub api_key_open : Bool
  pub api_key_name : Text
  pub created_key : Option Text
  pub delete_key_target : Option ApiKeyEntry

-- The queries that are invalidated.
pub data Query : Type 0 where
  me org_members org_invitations enrollment_tokens api_keys : Query

pub record Effects : Type 0 where
  pub error_toast : Bool
  pub toast : Option Text
  pub invalidated : List Query

abbrev succeeded : Text → List Query → Effects
succeeded text queries = record { error_toast = false; toast = some text; invalidated = queries }

-- `onError: (err) => toast.error(err.message)`
unfoldable pub failed : Text → PageState → PageState × Effects
failed message s = (s, record { error_toast = true; toast = some message; invalidated = [] })

-- `orgName ?? org?.name ?? ""` and the same of the description: what the fields show.
abbrev pub name_of : Option Organization → Text
name_of none = []
name_of (some o) = o.name

abbrev pub description_of : Option Organization → Text
description_of none = []
description_of (some o) = get_or o.description []

unfoldable pub shown_name : PageState → Text
shown_name s = get_or s.org_name (name_of s.org)

unfoldable pub shown_description : PageState → Text
shown_description s = get_or s.org_desc (description_of s.org)

-- `initOrgForm`
unfoldable pub init_org_form : PageState → PageState
init_org_form s = elim (s.org) [
  | none ↦ s
  | some o ↦ record s {
    org_name = some o.name;
    org_desc = some (get_or o.description []);
    org_dirty = false;
  }
]

unfoldable pub type_name : Text → PageState → PageState
type_name text s = record s { org_name = some text; org_dirty = true }

unfoldable pub type_description : Text → PageState → PageState
type_description text s = record s { org_desc = some text; org_dirty = true }

abbrev pub keep : Option Text → Option Text → Option Text
keep none old = old
keep (some t) old = some t

-- What `setQueryData` makes of the cached organization.
unfoldable pub optimistic : PageState → Option Organization → Option Organization
optimistic s none = none
optimistic s (some o) =
    some (record o { name = get_or s.org_name o.name; description = keep s.org_desc o.description })

-- `onMutate`: the state, and the context that the other callbacks get.
unfoldable pub update_started : PageState → PageState × Option Organization
unfolding optimistic
update_started s = (record s { org = optimistic s s.org }, s.org)

-- `onSuccess`
unfoldable pub update_succeeded : PageState → PageState × Effects
update_succeeded s = (
  record s { org_name = none; org_desc = none; org_dirty = false },
  succeeded (codes "Organization updated") (me ∷ []),
)

abbrev pub restored : Option Organization → PageState → PageState
restored none s = s
restored (some o) s = record s { org = some o }

-- `onError`, with the context of `onMutate`
unfoldable pub update_failed : Text → Option Organization → PageState → PageState × Effects
unfolding failed
update_failed message previous s = failed message (restored previous s)

-- The mutations of the members and the invitations
abbrev pub invite_text : InviteStatus → Text
invite_text added = codes "Member added to the organization"
invite_text invited = codes "Invitation sent — they'll join when they first sign in"

unfoldable pub member_added : InviteStatus → PageState → PageState × Effects
member_added status s = (
  record s { invite_open = false; invite_email = []; invite_role = codes "VIEWER" },
  succeeded (invite_text status) (org_members ∷ org_invitations ∷ []),
)

unfoldable pub member_removed : PageState → PageState × Effects
member_removed s = (
  record s { remove_member_target = none },
  succeeded (codes "Member removed") (org_members ∷ []),
)

unfoldable pub invitation_revoked : PageState → PageState × Effects
invitation_revoked s = (s, succeeded (codes "Invitation revoked") (org_invitations ∷ []))

-- The mutations of the enrollment tokens
unfoldable pub token_created : Text → PageState → PageState × Effects
token_created token s = (
  record s { created_token = some token; token_desc = [] },
  record { error_toast = false; toast = none; invalidated = enrollment_tokens ∷ [] },
)

unfoldable pub token_deleted : PageState → PageState × Effects
token_deleted s = (
  record s { delete_token_target = none },
  succeeded (codes "Token revoked") (enrollment_tokens ∷ []),
)

-- `onOpenChange` of the dialog of the tokens, and its button `Done`
unfoldable pub token_open_changed : Bool → PageState → PageState
token_open_changed true s = record s { token_open = true }
token_open_changed false s = record s { token_open = false; created_token = none }

-- The mutations of the API keys
unfoldable pub api_key_created : Text → PageState → PageState × Effects
api_key_created raw_key s = (
  record s { api_key_name = []; created_key = some raw_key },
  succeeded (codes "API key created") (api_keys ∷ []),
)

unfoldable pub api_key_deleted : PageState → PageState × Effects
api_key_deleted s =
    (record s { delete_key_target = none }, succeeded (codes "API key revoked") (api_keys ∷ []))

-- `onOpenChange` of the dialog of the keys, and its button `Cancel`
unfoldable pub api_key_open_changed : Bool → PageState → PageState
api_key_open_changed true s = record s { api_key_open = true }
api_key_open_changed false s = record s { api_key_open = false; created_key = none }

unfoldable pub api_key_cancelled : PageState → PageState
api_key_cancelled s = record s { api_key_open = false }
