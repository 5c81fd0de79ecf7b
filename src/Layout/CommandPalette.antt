-- ===== src/Layout/CommandPalette.antt =====
-- ui/components/command-palette.tsx: the palette of pages and devices, and the keys that open it.
use edge_guardian.Base.{
  Bool, true, false, not, ◌&&◌, ◌||◌, Option, List, [], ◌∷◌, ◌++◌, map, Text, codes, text_eq, take,
  if◌then◌else◌, get_or,
}
use edge_guardian.Api.Devices.{Device}
use edge_guardian.Layout.Sidebar.{NavItem, Theme, toggle_theme}

abbrev pub pages : List NavItem
pages =
    record { name = codes "Dashboard"; href = codes "/" }
    ∷ record { name = codes "Devices"; href = codes "/devices" }
    ∷ record { name = codes "Audit Log"; href = codes "/audit" }
    ∷ record { name = codes "Settings"; href = codes "/settings" }
    ∷ []

-- The component's state, with what its commands act on: the router's address and the theme.
pub record PaletteState : Type 0 where
  pub open_now : Bool
  pub address : Text
  pub theme : Theme

-- `e.key === "k" && (e.metaKey || e.ctrlKey)`
unfoldable pub opens_palette : Text → Bool → Bool → Bool
unfolding text_eq
opens_palette key meta ctrl = text_eq key (codes "k") && (meta || ctrl)

-- `down`; the flag tells whether the browser's own action is prevented.
unfoldable pub key_down : Text → Bool → Bool → PaletteState → PaletteState × Bool
unfolding opens_palette
key_down key meta ctrl s =
    if opens_palette key meta ctrl
    then (record s { open_now = not s.open_now }, true)
    else (s, false)

-- `onClick` of the button, and `onOpenChange` of the dialog
unfoldable pub open_palette : PaletteState → PaletteState
open_palette s = record s { open_now = true }

unfoldable pub set_open : Bool → PaletteState → PaletteState
set_open b s = record s { open_now = b }

pub data Command : Type 0 where
  push : Text → Command
  switch_theme : Command

unfoldable pub run_command : Command → PaletteState → PaletteState
unfolding toggle_theme
run_command (push href) s = record s { open_now = false; address = href }
run_command switch_theme s = record s { open_now = false; theme = toggle_theme s.theme }

pub record Entry : Type 0 where
  pub label : Text
  pub note : Text
  pub command : Command

abbrev pub page_entry : NavItem → Entry
page_entry p = record { label = p.name; note = []; command = push p.href }

abbrev pub device_entry : Device → Entry
device_entry d = record {
  label = d.hostname;
  note = d.state;
  command = push (codes "/devices/" ++ d.device_id);
}

-- `theme === "dark" ? "Light" : "Dark"`
unfoldable pub theme_label : Theme → Text
theme_label Theme.dark = codes "Toggle Light Mode"
theme_label Theme.light = codes "Toggle Dark Mode"

-- The entries of the dialog, before the search; at most ten devices.
unfoldable pub entries : Option (List Device) → Theme → List Entry
unfolding take theme_label
entries devices theme =
    map page_entry pages
    ++ map device_entry (take 10 (get_or devices []))
    ++ record { label = theme_label theme; note = []; command = switch_theme } ∷ []
