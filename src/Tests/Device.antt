-- ===== src/Tests/Device.antt =====
-- ui/app/(dashboard)/devices/[id]/page.tsx and manifest/page.tsx below it at concrete inputs.
use edge_guardian.Base.{
  ℕ, ◌≡◌, ◌⊎◌, ◌+◌, ◌*◌, ◌/◌, ◌<◌, ◌++◌, true, false, some, refl, List, [], ◌∷◌, codes, Option,
  lookup, text_eq, none, last_or, get_elem?,
}
use edge_guardian.Decimal.{to_string}
use edge_guardian.DevicePage.{
  PageState, Manifest, yaml_text, key_pressed, has_manifest_changes, current_value, format_uptime,
}
use edge_guardian.DevicePage.Labels.{
  Edit, removed, key_typed, value_typed, added, run, label_after, lookup-run,
}
use edge_guardian.ManifestPage.{shortcut}
use edge_guardian.DevicePage.Uptime.{format_uptime_lem}
use edge_guardian.LogsPage.{initial, log_params, get_start, set_search, set_level, set_time_range}
use edge_guardian.LogsPage.Choices.{
  searched, level_picked, range_picked, after_choices, make_choice, pick,
}
use edge_guardian.LogsPage.Screen.{page_logs_query}
use edge_guardian.DevicePage.Monitoring.{no_filters, logs_query, telemetry_query}
use edge_guardian.DevicePage.Monitoring.Choices.{
  FilterChoice, log_choice, telemetry_picked, after_filters,
}
use edge_guardian.DevicePage.Monitoring.Wanted.{
  asked_logs, asked_telemetry, log_choices, telemetry_ranges,
}
use edge_guardian.DevicePage.Monitoring.Requests.{queries-after_filters}

abbrev page : PageState
page = record {
  editing_labels = true;
  new_label_key = [];
  new_label_value = [];
  local_labels = (codes "room", codes "lab") ∷ [];
  editor_value = some (codes "a: 2");
}

abbrev edits : List Edit
edits = key_typed (codes "rack") ∷ value_typed (codes "7") ∷ added ∷ removed (codes "room") ∷ []

lookup-run_example :
    lookup (codes "rack") (run page edits).local_labels
    ≡ label_after (codes "rack") [] [] (lookup (codes "rack") page.local_labels) edits
lookup-run_example = lookup-run (codes "rack") edits page

abbrev manifest : Option Manifest
manifest = some (yaml_text (codes "a: 1"))

-- Just over a day.
uptime_shown :
    ((d : ℕ) × (h : ℕ) × (format_uptime 100000
        ≡ to_string d ++ codes "d " ++ to_string h ++ codes "h")
      × (d * 24 + h ≡ 100000 / 3600)
      × (h < 24)
      × (0 < d))
    ⊎ ((h : ℕ) × (m : ℕ) × (format_uptime 100000
          ≡ to_string h ++ codes "h " ++ to_string m ++ codes "m")
        × (h * 60 + m ≡ 100000 / 60)
        × (m < 60)
        × (h < 24))
uptime_shown = format_uptime_lem 100000

pressed : key_pressed true false (codes "s") manifest page ≡ some (codes "a: 2")
unfolding key_pressed has_manifest_changes current_value text_eq
pressed = refl

-- The page of the manifest takes the key press in the same way.
shortcut_pressed :
    shortcut true false (codes "s") manifest (some (codes "a: 2")) ≡ some (codes "a: 2")
unfolding shortcut text_eq
shortcut_pressed = refl

-- A level, the day, a search, then all the levels again, and the month for the telemetry.
abbrev choices : List FilterChoice
choices =
    log_choice (level_picked 1)
    ∷ log_choice (range_picked 3)
    ∷ telemetry_picked 5
    ∷ log_choice (searched (codes "disk"))
    ∷ log_choice (level_picked 0)
    ∷ []

queries-after_filters_example :
    (logs_query to_string (codes "t") (codes "pi-1") 5000000000 (after_filters choices no_filters)
      ≡ asked_logs to_string 5000000000 (codes "t") (codes "pi-1") (log_choices choices))
    × (page_logs_query to_string 5000000000
          (some (codes "t"))
          (codes "pi-1")
          (after_choices (log_choices choices) initial)
        ≡ asked_logs to_string 5000000000 (codes "t") (codes "pi-1") (log_choices choices))
    × (telemetry_query to_string
          (codes "t")
          (codes "pi-1")
          5000000000
          (after_filters choices no_filters)
        ≡ asked_telemetry to_string 5000000000 (codes "t") (codes "pi-1") 43200)
unfolding telemetry_ranges last_or
queries-after_filters_example =
    queries-after_filters to_string 5000000000 (codes "t") (codes "pi-1") choices

-- All Levels asks for the level all.
all_levels :
    log_params to_string 5000000000 (after_choices (log_choices choices) initial) ≡ record {
      start = some (codes "4913600000");
      end = none;
      limit = some 200;
      level = some (codes "all");
      search = some (codes "disk");
    }
unfolding log_params get_start after_choices log_choices make_choice pick set_search set_level
    set_time_range lookup text_eq to_string get_elem?
all_levels = refl
