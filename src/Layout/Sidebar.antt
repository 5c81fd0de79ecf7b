-- ===== src/Layout/Sidebar.antt =====
-- ui/components/sidebar.tsx: the navigation, the initials of the user, and whether the bar is
-- collapsed, which the browser's local storage keeps.
pub mod Highlight
pub mod Storage
pub mod Drawn
use edge_guardian.Base.{
  Bool, true, false, not, ◌||◌, Option, none, some, List, [], ◌∷◌, ◌++◌, map, Text, codes, text_eq,
  starts_with, if◌then◌else◌, take, lookup, insert, split_from, filter,
}

pub record NavItem : Type 0 where
  pub name : Text
  pub href : Text

-- An item whose address is one slash and a word.
abbrev pub item : Text → Text → NavItem
item name word = record { name = name; href = b'/' ∷ word }

abbrev pub navigation : List NavItem
navigation =
    item (codes "Dashboard") (codes "dashboard")
    ∷ item (codes "Devices") (codes "devices")
    ∷ item (codes "Certificates") (codes "certificates")
    ∷ item (codes "Settings") (codes "settings")
    ∷ item (codes "Audit Log") (codes "audit")
    ∷ []

unfoldable pub is_active : Text → NavItem → Bool
unfolding starts_with text_eq
is_active pathname i = text_eq pathname i.href || starts_with pathname (i.href ++ b'/' ∷ [])

-- The items that are drawn as the current one.
unfoldable pub active_items : Text → List NavItem
unfolding is_active filter
active_items pathname = filter (is_active pathname) navigation

-- `n[0]`, where undefined is joined as the empty text
abbrev pub initial : Text → Text
initial [] = []
initial (c ∷ s) = c ∷ []

unfoldable pub concat : List Text → Text
concat [] = []
concat (t ∷ ts) = t ++ concat ts

-- `name?.split(" ").map((n) => n[0]).join("").slice(0, 2).toUpperCase() ?? "?"`
unfoldable pub initials : (Text → Text) → Option Text → Text
unfolding concat split_from take
initials upper none = codes "?"
initials upper (some name) = upper (take 2 (concat (map initial (split_from b' ' [] name))))

pub data Theme : Type 0 where
  dark light : Theme

abbrev pub is_dark : Theme → Bool
is_dark dark = true
is_dark light = false

-- `setTheme(theme === "dark" ? "light" : "dark")`
unfoldable pub toggle_theme : Theme → Theme
toggle_theme dark = light
toggle_theme light = dark

-- `onCheckedChange` of the switch
unfoldable pub set_dark : Bool → Theme
set_dark true = dark
set_dark false = light

-- The component's state, and the local storage.
pub record SidebarState : Type 0 where
  pub collapsed : Bool
  pub mounted : Bool
  pub storage : List (Text × Text)

abbrev pub collapsed_key : Text
collapsed_key = codes "sidebar-collapsed"

-- `String(next)`
abbrev pub bool_text : Bool → Text
bool_text true = codes "true"
bool_text false = codes "false"

-- Before the effect has run.
abbrev pub fresh : List (Text × Text) → SidebarState
fresh storage = record { collapsed = false; mounted = false; storage = storage }

abbrev pub is_true : Option Text → Bool
is_true none = false
is_true (some v) = text_eq v (codes "true")

-- The effect that runs once.
unfoldable pub mount : SidebarState → SidebarState
unfolding lookup text_eq
mount s =
    if is_true (lookup collapsed_key s.storage)
    then record s { mounted = true; collapsed = true }
    else record s { mounted = true }

unfoldable pub toggle_collapsed : SidebarState → SidebarState
unfolding insert
toggle_collapsed s = record s {
  collapsed = not s.collapsed;
  storage = insert collapsed_key (bool_text (not s.collapsed)) s.storage;
}
