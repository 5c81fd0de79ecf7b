-- ===== src/LogsPage.antt =====
-- ui/app/(dashboard)/devices/[id]/logs/page.tsx: the filters of the log and its lines. `toISOString`
-- is a parameter.
pub mod Download
pub mod Screen
pub mod Choices
use edge_guardian.Base.{
  join, ℕ, ◌-◌, ◌*◌, Option, none, some, List, [], ◌∷◌, ◌++◌, map, Text, codes, truthy,
  if◌then◌else◌, get_or, lookup,
}
use edge_guardian.Api.Devices.{LogParams}

pub record PageState : Type 0 where
  pub search : Text
  pub level : Text
  pub time_range : Text

abbrev pub initial : PageState
initial = record { search = []; level = []; time_range = codes "1h" }

-- `onChange` of the field and `onValueChange` of the two selects
unfoldable pub set_search : Text → PageState → PageState
set_search text s = record s { search = text }

unfoldable pub set_level : Text → PageState → PageState
set_level v s = record s { level = v }

unfoldable pub set_time_range : Text → PageState → PageState
set_time_range v s = record s { time_range = v }

abbrev minute : ℕ
minute = 60 * 1000

abbrev pub range_ms : List (Text × ℕ)
range_ms =
    (codes "15m", 15 * minute)
    ∷ (codes "1h", 60 * minute)
    ∷ (codes "6h", 6 * 60 * minute)
    ∷ (codes "24h", 24 * 60 * minute)
    ∷ (codes "7d", 7 * 24 * 60 * minute)
    ∷ []

-- The instant whose ISO text `getStart` returns.
unfoldable pub get_start : ℕ → PageState → ℕ
unfolding lookup
get_start now s = now - get_or (lookup s.time_range range_ms) (60 * minute)

-- `value || undefined`
abbrev pub or_undefined : Text → Option Text
or_undefined t = if truthy t then some t else none

-- What the query function asks for.
unfoldable pub log_params : (ℕ → Text) → ℕ → PageState → LogParams
unfolding get_start
log_params to_iso now s = record {
  start = some (to_iso (get_start now s));
  end = none;
  limit = some 200;
  level = or_undefined s.level;
  search = or_undefined s.search;
}

pub record LogLine : Type 0 where
  pub timestamp : Text
  pub line : Text

abbrev pub to_line : Text × Text → LogLine
to_line (ts, text) = record { timestamp = ts; line = text }

-- The response, as far as it is read: the streams, each with its pairs, where both may be missing.
abbrev pub LogResponse : Type 0
LogResponse = Option (List (Option (List (Text × Text))))

unfoldable pub stream_lines : List (Option (List (Text × Text))) → List LogLine
stream_lines [] = []
stream_lines (values ∷ streams) = map to_line (get_or values []) ++ stream_lines streams

unfoldable pub log_lines : LogResponse → List LogLine
unfolding stream_lines
log_lines response = stream_lines (get_or response [])

-- `lines.join("\n")`
unfoldable pub join_lines : List Text → Text
unfolding join
join_lines lines = join 10 lines

-- The content of the file that `downloadLogs` offers.
unfoldable pub download_content : LogResponse → Text
unfolding join_lines log_lines
download_content response = join_lines (map (λ (l : LogLine). l.line) (log_lines response))
