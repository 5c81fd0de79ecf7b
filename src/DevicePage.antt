-- ===== src/DevicePage.antt =====
-- ui/app/(dashboard)/devices/[id]/page.tsx: the labels, the manifest, the time ranges and the uptime
-- of one device. `JSON.stringify` of a manifest that is no text is a parameter.
pub mod Labels
pub mod Editor
pub mod Uptime
pub mod Monitoring
pub mod Overview
pub mod Panels
use edge_guardian.Base.{
  ℕ, ◌+◌, ◌-◌, ◌*◌, ◌/◌, ◌%◌, Bool, true, false, not, ◌&&◌, ◌||◌, Option, none, some, List, [], ◌∷◌,
  ◌++◌, Text, codes, truthy, text_eq, ltb, if◌then◌else◌, get_or, lookup, insert, remove,
}
use edge_guardian.Decimal.{to_string}
use edge_guardian.Api.Devices.{Device, TelemetryBucket, raw, hourly}

-- `formatUptime`
unfoldable pub format_uptime : ℕ → Text
format_uptime seconds =
    if ltb 0 (seconds / 86400)
    then to_string (seconds / 86400)
      ++ codes "d "
      ++ to_string (seconds % 86400 / 3600)
      ++ codes "h"
    else to_string (seconds % 86400 / 3600)
      ++ codes "h "
      ++ to_string (seconds % 3600 / 60)
      ++ codes "m"

abbrev minute : ℕ
minute = 60 * 1000

-- `TIME_RANGE_MS`
abbrev pub time_range_ms : List (Text × ℕ)
time_range_ms =
    (codes "15m", 15 * minute)
    ∷ (codes "1h", 60 * minute)
    ∷ (codes "6h", 6 * 60 * minute)
    ∷ (codes "24h", 24 * 60 * minute)
    ∷ (codes "7d", 7 * 24 * 60 * minute)
    ∷ (codes "30d", 30 * 24 * 60 * minute)
    ∷ []

-- The instant whose ISO text `rangeStartIso` returns.
unfoldable pub range_start : ℕ → Text → ℕ
unfolding lookup
range_start now range = now - get_or (lookup range time_range_ms) (60 * minute)

-- `telemetryBucket`; undefined is not greater than anything
unfoldable pub telemetry_bucket : Text → TelemetryBucket
unfolding lookup
telemetry_bucket range =
    if ltb (6 * 60 * minute) (get_or (lookup range time_range_ms) 0) then hourly else raw

-- The component's state, as far as it is edited on the page.
pub record PageState : Type 0 where
  pub editing_labels : Bool
  pub new_label_key : Text
  pub new_label_value : Text
  pub local_labels : List (Text × Text)
  pub editor_value : Option Text

-- The effect that runs when `device` has changed.
unfoldable pub device_changed : Option Device → PageState → PageState
device_changed none s = s
device_changed (some device) s = record s { local_labels = device.labels }

-- The handlers of the labels' card; the button to add is disabled without a key.
unfoldable pub edit_labels : PageState → PageState
edit_labels s = record s { editing_labels = true }

unfoldable pub remove_label : Text → PageState → PageState
remove_label k s = record s { local_labels = remove k s.local_labels }

unfoldable pub type_key : Text → PageState → PageState
type_key text s = record s { new_label_key = text }

unfoldable pub type_value : Text → PageState → PageState
type_value text s = record s { new_label_value = text }

unfoldable pub add_label : PageState → PageState
add_label s =
    if truthy s.new_label_key
    then record s {
      local_labels = insert s.new_label_key s.new_label_value s.local_labels;
      new_label_key = [];
      new_label_value = [];
    }
    else s

unfoldable pub cancel_labels : Device → PageState → PageState
cancel_labels device s = record s { editing_labels = false; local_labels = device.labels }

-- `onSuccess` of the mutation of the labels
unfoldable pub labels_saved : PageState → PageState
labels_saved s = record s { editing_labels = false }

-- The manifest as it came: a text, or something else, with its JSON text.
pub data Manifest : Type 0 where
  yaml_text json_text : Text → Manifest

-- `initialYaml`; a manifest that is missing, null or false has none
unfoldable pub initial_yaml : Option Manifest → Text
initial_yaml none = []
initial_yaml (some (yaml_text t)) = t
initial_yaml (some (json_text t)) = t

unfoldable pub current_value : Option Manifest → PageState → Text
unfolding initial_yaml
current_value manifest s = get_or s.editor_value (initial_yaml manifest)

abbrev pub differs : Option Text → Text → Bool
differs none t = false
differs (some v) t = not (text_eq v t)

unfoldable pub has_manifest_changes : Option Manifest → PageState → Bool
unfolding initial_yaml
has_manifest_changes manifest s = differs s.editor_value (initial_yaml manifest)

-- What the handler of the keyboard sends to `manifestMutation`, if anything.
unfoldable pub key_pressed : Bool → Bool → Text → Option Manifest → PageState → Option Text
unfolding has_manifest_changes current_value
key_pressed ctrl meta key manifest s =
    if (ctrl || meta) && text_eq key (codes "s")
    then if has_manifest_changes manifest s && truthy (current_value manifest s)
      then some (current_value manifest s)
      else none
    else none

-- What the button sends; it is disabled without changes and while a mutation runs.
unfoldable pub save_clicked : Bool → Option Manifest → PageState → Option Text
unfolding has_manifest_changes current_value
save_clicked is_pending manifest s =
    if not (has_manifest_changes manifest s) || is_pending
    then none
    else some (current_value manifest s)

-- `onChange` of the editor, and `onSuccess` of the mutation
unfoldable pub edit_manifest : Option Text → PageState → PageState
edit_manifest value s = record s { editor_value = some (get_or value []) }

unfoldable pub manifest_saved : PageState → PageState
manifest_saved s = record s { editor_value = none }
