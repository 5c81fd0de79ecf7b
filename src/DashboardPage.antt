-- ===== src/DashboardPage.antt =====
-- ui/app/(dashboard)/dashboard/page.tsx with ui/components/fleet-health-chart.tsx,
-- ui/components/resource-utilization-chart.tsx, ui/components/mini-ring-chart.tsx and
-- ui/components/state-badge.tsx: the figures of the whole fleet. A quotient is taken exactly, where
-- the source rounds it to a double.
pub mod Averages
pub mod Consumers
pub mod Screen
pub mod Health
use Prim.Native.Nat.{compare}
use edge_guardian.Base.{
  ℕ, ◌+◌, ◌-◌, ◌*◌, ◌/◌, Bool, false, not, ◌&&◌, ◌||◌, Option, none, some, List, [], ◌∷◌, ◌++◌, map,
  Text, codes, truthy, text_eq, ltb, ◌==◌, if◌then◌else◌, get_or, is_some, filter, length, take,
  lookup,
}
use edge_guardian.Decimal.{to_string}
use edge_guardian.Api.Request.{Call}
use edge_guardian.Api.Devices.{Device, DeviceStatus, list_devices}
use edge_guardian.Api.Organizations.{list_audit_log}
use edge_guardian.Organization.{unset}
use edge_guardian.Sorting.{Comparison, sort}

-- The two queries, if they are enabled.
unfoldable pub devices_query : Text → Option Call
unfolding list_devices
devices_query token = if truthy token then some (list_devices token) else none

unfoldable pub audit_log_query : Text → Option ℕ → Option Call
unfolding list_audit_log
audit_log_query token org_id =
    if truthy token && not (unset org_id)
    then some (
        list_audit_log token
          (some record { page = none; size = some 10; action = none; resource_type = none }))
    else none

unfoldable pub count_in : Text → List Device → ℕ
unfolding filter text_eq
count_in state devices = length (filter (λ d. text_eq d.state state) devices)

-- `d.status?.cpuUsagePercent`
unfoldable pub cpu_of : Device → Option ℕ
cpu_of d = elim (d.status) [ none ↦ none | some s ↦ s.cpu_usage_percent ]

unfoldable pub sum_cpu : List Device → ℕ
unfolding cpu_of
sum_cpu [] = 0
sum_cpu (d ∷ ds) = get_or (cpu_of d) 0 + sum_cpu ds

unfoldable pub reporting : List Device → List Device
unfolding filter cpu_of
reporting devices = filter (λ d. is_some (cpu_of d)) devices

-- `Math.round` of so many thousandths.
unfoldable pub round : ℕ → ℕ
round n = (n + 500) / 1000

-- `Math.round(a / b || 0)` for `a` in thousandths, where `0 / 0` is NaN
unfoldable pub round_quotient : ℕ → ℕ → ℕ
round_quotient a b = if b == 0 then 0 else (2 * a + 1000 * b) / (2000 * b)

unfoldable pub avg_cpu : List Device → ℕ
unfolding sum_cpu reporting round_quotient
avg_cpu devices = round_quotient (sum_cpu devices) (length (reporting devices))

-- `(used / total) * 100 > 80`, if the total is known
unfoldable pub memory_is_high : Option DeviceStatus → Bool
memory_is_high none = false
memory_is_high (some s) =
    not (s.memory_total_bytes == 0) && ltb (80 * s.memory_total_bytes) (s.memory_used_bytes * 100)

unfoldable pub is_in_need : Device → Bool
unfolding text_eq cpu_of memory_is_high
is_in_need d =
    text_eq d.state (codes "DEGRADED") || ltb 80000 (get_or (cpu_of d) 0) || memory_is_high d.status

unfoldable pub needs_attention : List Device → List Device
unfolding is_in_need filter
needs_attention devices = filter is_in_need devices

-- A row of the table of devices in need.
pub record NeedRow : Type 0 where
  pub href : Text
  pub hostname : Text
  pub state : Text
  pub cpu : Text
  pub memory : Text

abbrev pub percent : Option ℕ → Text
percent none = codes "--%"
percent (some n) = to_string n ++ codes "%"

-- `Math.round((used / total) * 100)`, if the total is known
unfoldable pub memory_percent : Option DeviceStatus → Option ℕ
memory_percent none = none
memory_percent (some s) =
    if s.memory_total_bytes == 0
    then none
    else some ((200 * s.memory_used_bytes + s.memory_total_bytes) / (2 * s.memory_total_bytes))

unfoldable pub cpu_percent : Option ℕ → Option ℕ
unfolding round
cpu_percent none = none
cpu_percent (some c) = some (round c)

unfoldable pub need_row : Device → NeedRow
unfolding cpu_of cpu_percent memory_percent to_string
need_row d = record {
  href = codes "/devices/" ++ d.device_id;
  hostname = d.hostname;
  state = d.state;
  cpu = percent (cpu_percent (cpu_of d));
  memory = percent (memory_percent d.status);
}

-- At most five rows.
unfoldable pub need_rows : List Device → List NeedRow
unfolding needs_attention need_row take
need_rows devices = map need_row (take 5 (needs_attention devices))

-- The segments of the small ring: the value, and what is left.
unfoldable pub ring_data : ℕ → ℕ → List ℕ
ring_data value total = value ∷ (total - value) ∷ []

pub record Slice : Type 0 where
  pub name : Text
  pub value : ℕ

abbrev pub slice_colors : List (Text × Text)
slice_colors =
    (codes "Online", codes "#34d399")
    ∷ (codes "Degraded", codes "#fbbf24")
    ∷ (codes "Offline", codes "#71717a")
    ∷ []

-- The data of the health chart, without empty slices.
unfoldable pub health_data : ℕ → ℕ → ℕ → List Slice
unfolding filter
health_data online degraded offline =
    filter (λ d. ltb 0 d.value)
      (record { name = codes "Online"; value = online }
        ∷ record { name = codes "Degraded"; value = degraded }
        ∷ record { name = codes "Offline"; value = offline }
        ∷ [])

-- The comparison of the utilization chart: the busier device first.
abbrev pub busier : Comparison Device
busier a b = compare (get_or (cpu_of b) 0) (get_or (cpu_of a) 0)

pub record BarEntry : Type 0 where
  pub name : Text
  pub cpu : ℕ

abbrev pub bar : Device → BarEntry
bar d = record { name = d.hostname; cpu = round (get_or (cpu_of d) 0) }

-- The devices of the bars.
unfoldable pub top_consumers : List Device → List Device
unfolding reporting sort take
top_consumers devices = take 5 (sort busier (reporting devices))

unfoldable pub utilization_data : List Device → List BarEntry
unfolding top_consumers round cpu_of
utilization_data devices = map bar (top_consumers devices)

unfoldable pub bar_color : ℕ → Text
bar_color cpu =
    if ltb 80 cpu then codes "#f87171" else if ltb 50 cpu then codes "#fbbf24" else codes "#06b6d4"

-- The colour family of a device's badge; `upper` is `toUpperCase`.
abbrev pub state_config : List (Text × Text)
state_config =
    (codes "ONLINE", codes "emerald")
    ∷ (codes "OFFLINE", codes "zinc")
    ∷ (codes "DEGRADED", codes "amber")
    ∷ (codes "PENDING", codes "blue")
    ∷ (codes "UPDATING", codes "violet")
    ∷ []

unfoldable pub badge_color : (Text → Text) → Text → Text
unfolding lookup
badge_color upper state = get_or (lookup (upper state) state_config) (codes "zinc")

unfoldable pub badge_pulses : (Text → Text) → Text → Bool
unfolding text_eq
badge_pulses upper state = text_eq (upper state) (codes "ONLINE")
