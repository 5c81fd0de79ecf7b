-- ===== src/LogsPage/Screen.antt =====
-- ui/app/(dashboard)/devices/[id]/logs/page.tsx: the query, the file that is offered, and the lines
-- with their colours, which are those of the page of the device. `toISOString` is a parameter.
use edge_guardian.Base.{
  ℕ, Bool, ◌&&◌, Option, none, some, List, [], ◌++◌, map, Text, codes, truthy, ◌==◌, if◌then◌else◌,
  get_or, length,
}
use edge_guardian.Decimal.{to_string}
use edge_guardian.Api.Request.{Call}
use edge_guardian.Api.Devices.{get_device_logs}
use edge_guardian.LogsPage.{
  PageState, LogLine, LogResponse, log_params, log_lines, download_content,
}
use edge_guardian.DevicePage.Monitoring.{color_of}

unfoldable pub page_logs_query : (ℕ → Text) → ℕ → Option Text → Text → PageState → Option Call
unfolding get_device_logs log_params
page_logs_query to_iso now access_token id s =
    if truthy (get_or access_token []) && truthy id
    then some (get_device_logs (get_or access_token []) id (some (log_params to_iso now s)))
    else none

pub record File : Type 0 where
  pub name : Text
  pub content : Text

-- The button to download is disabled without lines.
unfoldable pub download_clicked : Text → LogResponse → Option File
unfolding download_content log_lines
download_clicked id response =
    if length (log_lines response) == 0
    then none
    else some record { name = id ++ codes "-logs.txt"; content = download_content response }

pub data LogView : Type 0 where
  loading_lines : (rows : ℕ) → LogView
  no_lines : Text → LogView
  colored_lines : List (Text × Text) → LogView

abbrev pub colored : LogLine → Text × Text
colored l = (color_of l.line, l.line)

unfoldable pub log_view : Bool → LogResponse → LogView
unfolding log_lines color_of
log_view is_loading response =
    if is_loading
    then loading_lines 10
    else if length (log_lines response) == 0
    then no_lines
        (codes "No log entries found. Logs will appear once the device starts forwarding them.")
    else colored_lines (map colored (log_lines response))

unfoldable pub line_count : LogResponse → Text
unfolding log_lines to_string
line_count response = to_string (length (log_lines response)) ++ codes " lines"
