-- ===== src/DevicePage/Monitoring.antt =====
-- ui/app/(dashboard)/devices/[id]/page.tsx: what is polled of one device, and what the charts and
-- the log show of it. `toISOString` is a parameter.
pub mod Level
pub mod Choices
pub mod Wanted
pub mod Requests
use edge_guardian.Base.{
  ℕ, ◌*◌, Bool, true, false, ◌&&◌, ◌||◌, Option, none, some, List, [], ◌∷◌, map, Text, codes,
  truthy, leb, ◌==◌, if◌then◌else◌, get_or, lookup, starts_with, drop,
}
use edge_guardian.Api.Request.{Call}
use edge_guardian.Api.Devices.{
  DeviceStatus, Device, TelemetryBucket, raw, hourly, TelemetryDataPoint, get_device,
  get_device_logs, get_device_manifest, get_device_telemetry,
}
use edge_guardian.LogsPage.{LogLine, LogResponse, log_lines, or_undefined}
use edge_guardian.DevicePage.{range_start, telemetry_bucket}

-- A part of a whole as a percentage, `part / whole * 100`.
pub record Percentage : Type 0 where
  pub part : ℕ
  pub whole : ℕ

-- `memPct`: null without a total.
unfoldable pub mem_pct : DeviceStatus → Option Percentage
mem_pct s =
    if s.memory_total_bytes == 0
    then none
    else some record { part = s.memory_used_bytes; whole = s.memory_total_bytes }

-- The two values that the effect pushes when `device` has changed.
unfoldable pub polled : Option Device → List (Text × Option Percentage)
unfolding mem_pct
polled none = []
polled (some d) = elim (d.status) [
  | none ↦ []
  | some s ↦
      (
        codes "cpu",
        elim (s.cpu_usage_percent) [
          | none ↦ none
          | some c ↦ some record { part = c; whole = 100 * 1000 }
        ],
      )
      ∷ (codes "memory", mem_pct s)
      ∷ []
]

-- The filters of the log, and the range of the telemetry.
pub record Filters : Type 0 where
  pub log_search : Text
  pub log_level : Text
  pub log_time_range : Text
  pub telemetry_range : Text

abbrev pub no_filters : Filters
no_filters = record {
  log_search = [];
  log_level = [];
  log_time_range = codes "1h";
  telemetry_range = codes "1h";
}

unfoldable pub set_log_search : Text → Filters → Filters
set_log_search text f = record f { log_search = text }

unfoldable pub set_log_level : Text → Filters → Filters
set_log_level v f = record f { log_level = v }

unfoldable pub set_log_time_range : Text → Filters → Filters
set_log_time_range v f = record f { log_time_range = v }

unfoldable pub set_telemetry_range : Text → Filters → Filters
set_telemetry_range v f = record f { telemetry_range = v }

-- `!!token && !!id`
abbrev pub when_known : Text → Text → Call → Option Call
when_known token id c = if truthy token && truthy id then some c else none

module _ (to_iso : ℕ → Text) (token id : Text) where
  -- The four queries of the page; `now` is the clock.
  unfoldable pub device_query : Option Call
  unfolding get_device
  device_query = when_known token id (get_device token id)

  unfoldable pub logs_query : ℕ → Filters → Option Call
  unfolding get_device_logs range_start
  logs_query now f = when_known token id (
      get_device_logs token id (
        some record {
          start = some (to_iso (range_start now f.log_time_range));
          end = none;
          limit = some 200;
          level = or_undefined f.log_level;
          search = or_undefined f.log_search;
        }))

  unfoldable pub telemetry_query : ℕ → Filters → Option Call
  unfolding get_device_telemetry range_start telemetry_bucket
  telemetry_query now f = when_known token id (
      get_device_telemetry token id record {
        start = to_iso (range_start now f.telemetry_range);
        end = to_iso now;
        bucket = some (telemetry_bucket f.telemetry_range);
      })

  unfoldable pub manifest_query : Option Call
  unfolding get_device_manifest
  manifest_query = when_known token id (get_device_manifest token id)

-- The time between two polls, in milliseconds.
abbrev pub device_interval : ℕ
device_interval = 10000

unfoldable pub telemetry_interval : TelemetryBucket → ℕ
telemetry_interval raw = 30000
telemetry_interval hourly = 5 * 60000

-- The axis shows the day for hourly points.
unfoldable pub axis_is_day : TelemetryBucket → Bool
axis_is_day raw = false
axis_is_day hourly = true

pub record ChartPoint : Type 0 where
  pub time : Text
  pub cpu : ℕ
  pub memory : Percentage

unfoldable pub chart_point : TelemetryDataPoint → ChartPoint
chart_point p = record {
  time = p.time;
  cpu = get_or p.cpu_usage_percent 0;
  memory =
      if p.memory_total_bytes == 0
      then record { part = 0; whole = 1 }
      else record { part = p.memory_used_bytes; whole = p.memory_total_bytes };
}

-- `telemetry` is the empty list until it has come.
unfoldable pub resource_chart_data : Option (List TelemetryDataPoint) → List ChartPoint
unfolding chart_point
resource_chart_data telemetry = map chart_point (get_or telemetry [])

-- The same loop over the streams as on the page of the log.
unfoldable pub log_entries : LogResponse → List LogLine
unfolding log_lines
log_entries response = log_lines response

-- `\w`
abbrev pub is_word : ℕ → Bool
is_word c =
    (leb b'0' c && leb c b'9')
    || (leb b'A' c && leb c b'Z')
    || c == b'_'
    || (leb b'a' c && leb c b'z')

-- `(\w+)` as far as it goes
pub word_prefix : Text → Text
word_prefix [] = []
word_prefix (c ∷ s) = let rest = c ∷ word_prefix s in if is_word c then rest else []

-- The word that stands here behind `level=`.
pub level_here : Text → Text
level_here s = if starts_with s (codes "level=") then word_prefix (drop 6 s) else []

-- `entry.line.match(/level=(\w+)/)?.[1] ?? ""`: the first place with a word.
unfoldable pub level_of : Text → Text
unfolding word_prefix level_here starts_with drop
level_of [] = []
level_of (c ∷ s) =
    let later = level_of s in if truthy (level_here (c ∷ s)) then level_here (c ∷ s) else later

abbrev pub level_colors : List (Text × Text)
level_colors =
    (codes "ERROR", codes "text-red-600 dark:text-red-400")
    ∷ (codes "WARN", codes "text-yellow-600 dark:text-yellow-400")
    ∷ (codes "INFO", codes "text-blue-600 dark:text-blue-400")
    ∷ (codes "DEBUG", codes "text-gray-500")
    ∷ []

unfoldable pub color_of : Text → Text
unfolding lookup level_of
color_of line = get_or (lookup (level_of line) level_colors) (codes "text-foreground")
