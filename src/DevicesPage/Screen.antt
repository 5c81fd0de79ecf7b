-- ===== src/DevicesPage/Screen.antt =====
-- ui/app/(dashboard)/devices/page.tsx: the header with the dialog that tells how to enroll a device,
-- the filter bar, and the rows of the table. The distance of a time to now is a parameter, from
-- date-fns.
use edge_guardian.Base.{
  ℕ, ◌+◌, ◌-◌, ◌*◌, min, Bool, true, false, Option, none, some, List, [], ◌∷◌, ◌++◌, map, Text,
  codes, truthy, ◌==◌, ltb, if◌then◌else◌, get_or, length, take,
}
use edge_guardian.Decimal.{to_string}
use edge_guardian.Api.Request.{Call}
use edge_guardian.Api.Devices.{Device, list_devices}
use edge_guardian.Sorting.{Comparison, sort, compare_text}
use edge_guardian.Table.{TableView, skeleton, nothing, table_rows}
use edge_guardian.DevicesPage.{
  SortKey, by_hostname, by_state, by_last_heartbeat, PageState, member, to_set, filtered, paginated,
}

unfoldable pub device_list_query : Option Text → Option Call
unfolding list_devices
device_list_query access_token =
    if truthy (get_or access_token []) then some (list_devices (get_or access_token [])) else none

-- `${n} device${n !== 1 ? "s" : ""} registered`
unfoldable pub devices_description : Option (List Device) → Text
unfolding to_string
devices_description devices =
    let n = length (get_or devices []) in
    to_string n ++ codes " device" ++ (if n == 1 then [] else codes "s") ++ codes " registered"

abbrev pub enroll_command : Text
enroll_command =
    codes "curl -sSL https://get.edgeguardian.io | sh -s -- --token YOUR_ENROLLMENT_TOKEN"

-- The button that copies the command: the clipboard, and the state until its timer has run.
unfoldable pub copy_command : PageState → PageState × Text
copy_command s = (record s { copied = true }, enroll_command)

unfoldable pub copy_timeout : PageState → PageState
copy_timeout s = record s { copied = false }

unfoldable pub copy_label : PageState → Text
copy_label s = if s.copied then codes "Copied!" else codes "Copy Command"

unfoldable pub set_enroll_dialog_open : Bool → PageState → PageState
set_enroll_dialog_open b s = record s { enroll_dialog_open = b }

unfoldable pub architectures : Option (List Device) → List Text
unfolding sort compare_text
architectures devices = sort compare_text (to_set (map (λ d. d.architecture) (get_or devices [])))

-- The items of the select, each with its value and its text.
unfoldable pub architecture_items : Option (List Device) → List (Text × Text)
unfolding architectures
architecture_items devices =
    (codes "all", codes "All Architectures") ∷ map (λ a. (a, a)) (architectures devices)

-- The heads of the table's columns behind the checkbox; some of them sort.
abbrev pub column_heads : List (Text × Option SortKey)
column_heads =
    (codes "Hostname", some by_hostname)
    ∷ (codes "State", some by_state)
    ∷ (codes "Architecture", none)
    ∷ (codes "Version", none)
    ∷ (codes "Last Heartbeat", some by_last_heartbeat)
    ∷ (codes "Labels", none)
    ∷ []

-- The three buttons of the states, each with whether it is filled, and whether there is one to clear.
unfoldable pub state_buttons : PageState → List (Text × Bool)
unfolding member
state_buttons s =
    map (λ state. (state, member state s.state_filter))
      (codes "ONLINE" ∷ codes "DEGRADED" ∷ codes "OFFLINE" ∷ [])

-- The bar of the selection, if something is selected.
unfoldable pub bulk_bar : PageState → Option Text
unfolding to_string
bulk_bar s =
    if ltb 0 (length s.selected)
    then some (to_string (length s.selected) ++ codes " selected")
    else none

unfoldable pub open_delete_confirm : PageState → PageState
open_delete_confirm s =
    if ltb 0 (length s.selected) then record s { delete_confirm_open = true } else s

pub record DeviceRow : Type 0 where
  pub href : Text
  pub is_selected : Bool
  pub hostname : Text
  pub state : Text
  pub platform : Text
  pub version : Text
  pub heartbeat : Text
  pub labels : List Text
  pub more_labels : Option Text

abbrev label_text : Text × Text → Text
label_text (k, v) = k ++ b'=' ∷ v

module _ (distance : Text → Text) where
  unfoldable pub device_row : PageState → Device → DeviceRow
  unfolding member take to_string
  device_row s d = record {
    href = codes "/devices/" ++ d.device_id;
    is_selected = member d.device_id s.selected;
    hostname = d.hostname;
    state = d.state;
    platform = d.os ++ b'/' ∷ d.architecture;
    version = d.agent_version;
    heartbeat =
        if truthy (get_or d.last_heartbeat [])
        then distance (get_or d.last_heartbeat [])
        else codes "Never";
    labels = map label_text (take 2 d.labels);
    more_labels =
        if ltb 2 (length d.labels) then some (b'+' ∷ to_string (length d.labels - 2)) else none;
  }

  -- `toLowerCase` and `localeCompare`
  module _ (lower : Text → Text) (locale_compare : Comparison Text) where
    unfoldable pub devices_table : Bool → List Device → PageState → TableView DeviceRow
    unfolding paginated device_row
    devices_table is_loading devices s =
        if is_loading
        then skeleton 5 7
        else if length (paginated lower locale_compare s devices) == 0
        then nothing (codes "No devices found") (codes "Register your first device to see it here.")
        else table_rows (map (device_row s) (paginated lower locale_compare s devices))

    -- `Showing a-b of n`, if the filters leave something
    unfoldable pub showing_devices : List Device → PageState → Option Text
    unfolding filtered to_string
    showing_devices devices s =
        let n = length (filtered lower locale_compare s devices) in
        if ltb 0 n
        then some (
            codes "Showing "
            ++ to_string (s.page * s.page_size + 1)
            ++ codes "-"
            ++ to_string (min ((s.page + 1) * s.page_size) n)
            ++ codes " of "
            ++ to_string n)
        else none

abbrev pub page_sizes : List ℕ
page_sizes = 10 ∷ 25 ∷ 50 ∷ []

-- The question before the selected devices are deleted.
unfoldable pub delete_devices_question : PageState → Text
unfolding to_string
delete_devices_question s =
    codes "Are you sure you want to delete "
    ++ to_string (length s.selected)
    ++ codes " device(s)? This action cannot be undone."
