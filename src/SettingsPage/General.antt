-- ===== src/SettingsPage/General.antt =====
-- ui/app/(dashboard)/settings/page.tsx: the tabs, the card of the organization, and the button that
-- invites.
use edge_guardian.Base.{
  Bool, ◌&&◌, not, Option, none, some, List, [], ◌∷◌, Text, codes, if◌then◌else◌, get_or,
}
use edge_guardian.SettingsPage.{PageState, shown_name, shown_description}

abbrev pub settings_tabs : List (Text × Text)
settings_tabs =
    (codes "general", codes "General")
    ∷ (codes "members", codes "Members")
    ∷ (codes "tokens", codes "Tokens")
    ∷ (codes "api-keys", codes "API Keys")
    ∷ []

-- The fields and the button of the card.
pub record GeneralCard : Type 0 where
  pub name : Text
  pub description : Text
  pub slug : Text
  pub role : Text
  pub can_save : Bool
  pub save_label : Text

-- `org?.slug ?? ""`
unfoldable pub shown_slug : PageState → Text
shown_slug s = elim (s.org) [ none ↦ [] | some o ↦ o.slug ]

-- `role` is that of the current organization, if there is one.
unfoldable pub general_card : Option Text → Bool → PageState → GeneralCard
unfolding shown_name shown_description shown_slug
general_card role is_pending s = record {
  name = shown_name s;
  description = shown_description s;
  slug = shown_slug s;
  role = get_or role (codes "--");
  can_save = s.org_dirty && not is_pending;
  save_label = if is_pending then codes "Saving..." else codes "Save Changes";
}

unfoldable pub invite_label : Bool → Text
invite_label is_pending = if is_pending then codes "Inviting..." else codes "Invite"
