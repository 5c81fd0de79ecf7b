-- ===== src/Organization.antt =====
-- ui/lib/hooks/use-organization.ts: which of the user's organizations is the current one, and how
-- the choice is kept in the browser's local storage.
pub mod Choice
use edge_guardian.Base.{
  ℕ, Bool, Option, none, some, List, Text, codes, truthy, ◌==◌, if◌then◌else◌, find, first, lookup,
  insert,
}
use edge_guardian.Decimal.{to_string, parse_int}
use edge_guardian.Api.Organizations.{MeResponse, MeOrganization}

-- The provider's state: the answer of `getMe`, the `orgId` state and `localStorage`.
pub record OrganizationState : Type 0 where
  pub me : Option MeResponse
  pub org_id : Option ℕ
  pub storage : List (Text × Text)

abbrev pub storage_key : Text
storage_key = codes "edgeguardian-org-id"

-- `stored ? parseInt(stored, 10) : undefined`
unfoldable pub stored_id : Option Text → Option ℕ
stored_id none = none
stored_id (some s) = if truthy s then parse_int s else none

-- `o.id === id`, where undefined and NaN equal nothing
abbrev pub has_id : Option ℕ → MeOrganization → Bool
has_id none o = Bool.false
has_id (some id) o = o.id == id

abbrev pub id_of : Option MeOrganization → Option ℕ
id_of none = none
id_of (some o) = some o.id

-- `found ? found.id : me.organizations[0]?.id`
unfoldable pub choose : List MeOrganization → Option MeOrganization → Option ℕ
choose organizations none = id_of (first organizations)
choose organizations (some found) = some found.id

-- `!orgId`
abbrev pub unset : Option ℕ → Bool
unset none = Bool.true
unset (some id) = id == 0

-- The effect that runs when `me` or `orgId` has changed.
unfoldable pub initialize : OrganizationState → OrganizationState
unfolding choose stored_id
initialize s = elim (s.me) [
  | none ↦ s
  | some me ↦
      if unset s.org_id
      then record s {
        org_id =
            choose me.organizations
              (find (has_id (stored_id (lookup storage_key s.storage))) me.organizations);
      }
      else s
]

-- `setOrgId`
unfoldable pub set_org_id : ℕ → OrganizationState → OrganizationState
set_org_id id s = record s {
  org_id = some id;
  storage = insert storage_key (to_string id) s.storage;
}

-- `currentOrg`
unfoldable pub current_org : OrganizationState → Option MeOrganization
current_org s = elim (s.me) [ none ↦ none | some me ↦ find (has_id s.org_id) me.organizations ]
