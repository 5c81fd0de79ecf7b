-- ===== src/DevicePage/Monitoring/Choices.antt =====
-- ui/app/(dashboard)/devices/[id]/page.tsx: the selects of the log and of the telemetry with their
-- items, and what the user does with them.
use edge_guardian.Base.{ℕ, List, [], ◌∷◌, Text, codes}
use edge_guardian.LogsPage.Choices.{Choice, searched, level_picked, range_picked, pick}
use edge_guardian.DevicePage.Monitoring.{
  Filters, set_log_search, set_log_level, set_log_time_range, set_telemetry_range,
}

abbrev pub log_level_items : List (Text × Text)
log_level_items =
    (codes "all", codes "All Levels")
    ∷ (codes "ERROR", codes "ERROR")
    ∷ (codes "WARN", codes "WARN")
    ∷ (codes "INFO", codes "INFO")
    ∷ (codes "DEBUG", codes "DEBUG")
    ∷ []

abbrev pub log_range_items : List (Text × Text)
log_range_items =
    (codes "15m", codes "15 min")
    ∷ (codes "1h", codes "1 hour")
    ∷ (codes "6h", codes "6 hours")
    ∷ (codes "24h", codes "24 hours")
    ∷ (codes "7d", codes "7 days")
    ∷ []

abbrev pub telemetry_items : List (Text × Text)
telemetry_items =
    (codes "15m", codes "Last 15 min")
    ∷ (codes "1h", codes "Last 1 hour")
    ∷ (codes "6h", codes "Last 6 hours")
    ∷ (codes "24h", codes "Last 24 hours")
    ∷ (codes "7d", codes "Last 7 days")
    ∷ (codes "30d", codes "Last 30 days")
    ∷ []

-- The same as on the page of the log, or an item of the telemetry's select.
pub data FilterChoice : Type 0 where
  log_choice : Choice → FilterChoice
  telemetry_picked : ℕ → FilterChoice

unfoldable pub choose_log : Choice → Filters → Filters
unfolding set_log_search set_log_level set_log_time_range pick
choose_log (searched text) f = set_log_search text f
choose_log (level_picked i) f = pick log_level_items set_log_level i f
choose_log (range_picked i) f = pick log_range_items set_log_time_range i f

unfoldable pub choose_filter : FilterChoice → Filters → Filters
unfolding choose_log set_telemetry_range pick
choose_filter (log_choice c) f = choose_log c f
choose_filter (telemetry_picked i) f = pick telemetry_items set_telemetry_range i f

unfoldable pub after_filters : List FilterChoice → Filters → Filters
unfolding choose_filter
after_filters [] f = f
after_filters (c ∷ cs) f = after_filters cs (choose_filter c f)
