-- ===== src/DevicePage/Panels.antt =====
-- ui/app/(dashboard)/devices/[id]/page.tsx: what the cards of the telemetry, the log, the labels and the
-- manifest show, and the page before the device has come.
use edge_guardian.Base.{
  Bool, not, Option, none, some, List, [], ◌∷◌, ◌++◌, map, Text, codes, ◌==◌, if◌then◌else◌, length,
}
use edge_guardian.Decimal.{to_string}
use edge_guardian.Api.Devices.{Device, TelemetryDataPoint}
use edge_guardian.LogsPage.{LogResponse}
use edge_guardian.LogsPage.Screen.{LogView, loading_lines, no_lines, colored_lines, colored}
use edge_guardian.DevicePage.{PageState, Manifest, initial_yaml, telemetry_bucket}
use edge_guardian.DevicePage.Monitoring.{ChartPoint, resource_chart_data, axis_is_day, log_entries}

-- The page itself: a skeleton while the device is read, or if there is none.
unfoldable pub shown_device : Bool → Option Device → Option Device
shown_device is_loading none = none
shown_device is_loading (some d) = if is_loading then none else some d

-- The tabs, each with its value and its text.
abbrev pub tab_items : List (Text × Text)
tab_items =
    (codes "overview", codes "Overview")
    ∷ (codes "logs", codes "Logs")
    ∷ (codes "manifest", codes "Manifest")
    ∷ (codes "ota", codes "OTA History")
    ∷ []

pub data TelemetryView : Type 0 where
  resource_chart : List ChartPoint → (by_day : Bool) → TelemetryView
  no_telemetry : Text → TelemetryView

unfoldable pub telemetry_view : Option (List TelemetryDataPoint) → Text → TelemetryView
unfolding resource_chart_data axis_is_day telemetry_bucket
telemetry_view telemetry range =
    if length (resource_chart_data telemetry) == 0
    then no_telemetry (codes "No telemetry in selected range")
    else resource_chart (resource_chart_data telemetry) (axis_is_day (telemetry_bucket range))

-- The button beside `Labels`, which is not there while the labels are edited.
unfoldable pub has_edit_button : PageState → Bool
has_edit_button s = not s.editing_labels

unfoldable pub log_count : LogResponse → Text
unfolding log_entries to_string
log_count response = to_string (length (log_entries response)) ++ codes " lines"

unfoldable pub log_card : Bool → LogResponse → LogView
unfolding log_entries
log_card logs_loading response =
    if logs_loading
    then loading_lines 10
    else if length (log_entries response) == 0
    then no_lines (codes "No log entries found.")
    else colored_lines (map colored (log_entries response))

unfoldable pub save_manifest_label : Bool → Text
save_manifest_label is_pending = if is_pending then codes "Saving..." else codes "Save Manifest"

-- The editor is drawn with the manifest that there is once the manifest has been read.
unfoldable pub manifest_card : Bool → Option Manifest → Option Text
unfolding initial_yaml
manifest_card manifest_loading manifest =
    if manifest_loading then none else some (initial_yaml manifest)
