-- ===== src/DashboardPage/Screen.antt =====
-- ui/app/(dashboard)/dashboard/page.tsx: what the page draws. The distance of a time to now is a
-- parameter, from date-fns.
use edge_guardian.Base.{
  ℕ, Bool, Option, none, some, List, [], ◌∷◌, ◌++◌, map, Text, codes, ltb, if◌then◌else◌, get_or,
  length,
}
use edge_guardian.Decimal.{to_string}
use edge_guardian.Api.Devices.{Device}
use edge_guardian.Api.Organizations.{AuditLogEntry}
use edge_guardian.DashboardPage.{
  count_in, avg_cpu, needs_attention, NeedRow, need_rows, ring_data, Slice, health_data, BarEntry,
  utilization_data,
}

pub record MetricCard : Type 0 where
  pub title : Text
  pub value : Text
  pub description : Text
  pub chart : Option (List ℕ)
  pub href : Option Text

-- The first row; skeletons stand for the four cards while the devices load.
unfoldable pub summary : Bool → Option (List Device) → Option (List MetricCard)
unfolding count_in avg_cpu needs_attention ring_data to_string
summary is_loading devices =
    let ds = get_or devices [] in
    let total = length ds in
    let online = count_in (codes "ONLINE") ds in
    if is_loading
    then none
    else some (
        record {
          title = codes "Total Devices";
          value = to_string total;
          description = codes "Across all sites";
          chart = none;
          href = some (codes "/devices");
        }
        ∷ record {
          title = codes "Online";
          value = to_string online ++ codes " / " ++ to_string total;
          description = codes "Reporting heartbeat";
          chart = if ltb 0 total then some (ring_data online total) else none;
          href = some (codes "/devices");
        }
        ∷ record {
          title = codes "Needs Attention";
          value = to_string (length (needs_attention ds));
          description = codes "Degraded or high load";
          chart = none;
          href = some (codes "/devices");
        }
        ∷ record {
          title = codes "Avg CPU Usage";
          value = to_string (avg_cpu ds) ++ codes "%";
          description = codes "Fleet average";
          chart = none;
          href = none;
        }
        ∷ [])

-- The slices of the health chart, or its text for an empty fleet.
unfoldable pub fleet_health : List Device → List Slice
unfolding count_in health_data
fleet_health ds =
    health_data (count_in (codes "ONLINE") ds) (count_in (codes "DEGRADED") ds)
      (count_in (codes "OFFLINE") ds)

pub data ChartView {ℓ} (A : Type ℓ) : Type ℓ where
  chart_text : Text → ChartView A
  chart_of : List A → ChartView A

abbrev chart_or {ℓ} : {A : Type ℓ} → Text → List A → ChartView A
chart_or text [] = chart_text text
chart_or text (x ∷ xs) = chart_of (x ∷ xs)

unfoldable pub health_view : Option (List Device) → ChartView Slice
unfolding fleet_health
health_view devices =
    chart_or (codes "No devices registered yet") (fleet_health (get_or devices []))

unfoldable pub consumers_view : Option (List Device) → ChartView BarEntry
unfolding utilization_data
consumers_view none = chart_text (codes "Loading...")
consumers_view (some ds) = chart_or (codes "No resource data available") (utilization_data ds)

-- The three lines of the fleet's state.
unfoldable pub fleet_state : List Device → List (Text × ℕ)
unfolding count_in
fleet_state ds =
    (codes "Online", count_in (codes "ONLINE") ds)
    ∷ (codes "Degraded", count_in (codes "DEGRADED") ds)
    ∷ (codes "Offline", count_in (codes "OFFLINE") ds)
    ∷ []

-- The table of the devices in need, or that all are healthy.
unfoldable pub attention_view : Option (List Device) → Option (List NeedRow)
unfolding needs_attention need_rows
attention_view devices =
    if ltb 0 (length (needs_attention (get_or devices [])))
    then some (need_rows (get_or devices []))
    else none

pub record Activity : Type 0 where
  pub action : Text
  pub what : Text
  pub time : Text

module _ (distance : Text → Text) where
  -- A null in the markup is drawn as nothing.
  abbrev pub activity : AuditLogEntry → Activity
  activity e = record {
    action = e.action;
    what = e.resource_type ++ b' ' ∷ e.resource_id ++ codes " by " ++ get_or e.user_email [];
    time = distance e.created_at;
  }

  -- None if there is nothing to display.
  unfoldable pub recent_activity : Option (List AuditLogEntry) → Option (List Activity)
  recent_activity none = none
  recent_activity (some []) = none
  recent_activity (some (e ∷ es)) = some (map activity (e ∷ es))
