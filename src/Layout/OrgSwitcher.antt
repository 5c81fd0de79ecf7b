-- ===== src/Layout/OrgSwitcher.antt =====
-- ui/components/org-switcher.tsx: the list from which the user picks an organization.
pub mod Choice
use edge_guardian.Base.{
  ℕ, Option, none, some, List, [], ◌∷◌, map, Text, if◌then◌else◌, truthy, all, ◌&&◌, codes, insert,
}
use edge_guardian.Decimal.{to_string, parse_int, is_digit}
use edge_guardian.Api.Organizations.{MeOrganization}
use edge_guardian.Organization.{OrganizationState, unset, set_org_id, storage_key}

pub record OrgOption : Type 0 where
  pub value : Text
  pub name : Text
  pub role : Text

abbrev pub org_option : MeOrganization → OrgOption
org_option o = record { value = to_string o.id; name = o.name; role = o.role }

-- `orgId ? String(orgId) : undefined`
unfoldable pub value : OrganizationState → Option Text
unfolding to_string
value s = elim (s.org_id) [
  | none ↦ none
  | some id ↦ if unset (some id) then none else some (to_string id)
]

-- None if nothing is drawn.
abbrev pub options : OrganizationState → Option (List OrgOption)
options s = elim (s.me) [
  | none ↦ none
  | some me ↦ elim (me.organizations) [ [] ↦ none | o ∷ os ↦ some (map org_option (o ∷ os)) ]
]

-- `Number(val)` of a text of digits; of anything else it is none, for NaN.
unfoldable pub to_number : Text → Option ℕ
unfolding parse_int all
to_number val = if truthy val && all is_digit val then parse_int val else none

-- `setOrgId(Number(val))`
unfoldable pub choose_value : Text → OrganizationState → OrganizationState
unfolding to_number set_org_id insert
choose_value val s = elim (to_number val) [
  | none ↦ record s { org_id = none; storage = insert storage_key (codes "NaN") s.storage }
  | some id ↦ set_org_id id s
]
