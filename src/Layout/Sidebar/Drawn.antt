-- ===== src/Layout/Sidebar/Drawn.antt =====
-- ui/components/sidebar.tsx: what is drawn in the wide and in the narrow bar.
use edge_guardian.Base.{
  Bool, not, ◌&&◌, Option, none, some, List, [], ◌∷◌, ◌++◌, map, Text, if◌then◌else◌,
}
use edge_guardian.Layout.UserMenu.{User}
use edge_guardian.Layout.Sidebar.{
  NavItem, navigation, is_active, initials, Theme, is_dark, SidebarState,
}

pub record NavLink : Type 0 where
  pub href : Text
  pub label : Option Text
  pub tooltip : Option Text
  pub is_marked : Bool

pub data Part : Type 0 where
  expand_handle small_logo wordmark collapse_button org_switcher : Part
  links : List NavLink → Part
  theme_switch : (checked : Bool) → Part
  theme_button : Part
  user_card : (avatar : Text) (name email : Option Text) → Part
  user_avatar : (avatar : Text) (name : Option Text) → Part

unfoldable pub nav_link : Text → Bool → NavItem → NavLink
unfolding is_active
nav_link pathname collapsed i = record {
  href = i.href;
  label = if collapsed then none else some i.name;
  tooltip = if collapsed then some i.name else none;
  is_marked = is_active pathname i;
}

-- The bottom of the bar.
unfoldable pub bottom : (Text → Text) → Theme → Option User → SidebarState → List Part
unfolding initials
bottom upper theme user s =
    (if not s.collapsed && s.mounted then theme_switch (is_dark theme) ∷ [] else [])
    ++ (elim user [
      | none ↦ []
      | some u ↦ if s.collapsed then [] else user_card (initials upper u.name) u.name u.email ∷ []
    ])
    ++ (if s.collapsed && s.mounted then theme_button ∷ [] else [])
    ++ (elim user [
      | none ↦ []
      | some u ↦ if s.collapsed then user_avatar (initials upper u.name) u.name ∷ [] else []
    ])

unfoldable pub sidebar : (Text → Text) → Text → Theme → Option User → SidebarState → List Part
unfolding nav_link bottom
sidebar upper pathname theme user s =
    (if s.collapsed
      then expand_handle ∷ small_logo ∷ []
      else wordmark ∷ collapse_button ∷ org_switcher ∷ [])
    ++ links (map (nav_link pathname s.collapsed) navigation) ∷ bottom upper theme user s
