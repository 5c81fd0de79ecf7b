-- ===== src/Tests/Fleet.antt =====
-- The dashboard at concrete inputs.
use mathlib.Core.List.{Perm}
use edge_guardian.Base.{
  ℕ, ◌≤◌, ◌≡◌, ◌≢◌, refl, arith, Option, none, some, List, [], ◌∷◌, ◌++◌, Text, codes, length, min,
}
use edge_guardian.Api.Devices.{Device}
use edge_guardian.DashboardPage.{
  reporting, avg_cpu, top_consumers, utilization_data, needs_attention, cpu_of,
}
use edge_guardian.DashboardPage.Averages.{avg_cpu-bounds}
use edge_guardian.DashboardPage.Consumers.{IsAbove, top_consumers-IsAbove}

abbrev device : Text → Text → Option ℕ → ℕ → Device
device name state cpu used = record {
  device_id = name;
  hostname = name;
  architecture = codes "arm64";
  os = codes "linux";
  agent_version = codes "1.0";
  labels = [];
  state = state;
  registered_at = [];
  last_heartbeat = none;
  auto_update = none;
  status = some record {
    cpu_usage_percent = cpu;
    memory_used_bytes = used;
    memory_total_bytes = 100;
    disk_used_bytes = 0;
    disk_total_bytes = 0;
    uptime_seconds = 0;
    last_reconcile = none;
    reconcile_status = [];
  };
}

abbrev fleet : List Device
fleet =
    device (codes "a") (codes "ONLINE") (some 20400) 10
    ∷ device (codes "b") (codes "ONLINE") (some 90500) 20
    ∷ device (codes "c") (codes "DEGRADED") none 30
    ∷ device (codes "d") (codes "OFFLINE") (some 10600) 95
    ∷ []

-- 121.5 percent over three devices
average : avg_cpu fleet ≡ 41
unfolding avg_cpu
average = refl

fleet_reports : reporting fleet ≢ []
unfolding reporting
fleet_reports e = cc

avg_cpu-bounds_example : (10 ≤ avg_cpu fleet) × (avg_cpu fleet ≤ 91)
unfolding cpu_of
avg_cpu-bounds_example = avg_cpu-bounds 10 91 fleet fleet_reports (
  (omega arith, omega arith),
  ((omega arith, omega arith), (tt, ((omega arith, omega arith), tt))),
)

top_consumers-IsAbove_example :
    (rest : List Device) × Perm (top_consumers fleet ++ rest) (reporting fleet)
    × IsAbove (top_consumers fleet) rest
    × (length (top_consumers fleet) ≡ min 5 (length (reporting fleet)))
top_consumers-IsAbove_example = top_consumers-IsAbove fleet

bars :
    utilization_data fleet
    ≡ record { name = codes "b"; cpu = 91 }
      ∷ record { name = codes "a"; cpu = 20 }
      ∷ record { name = codes "d"; cpu = 11 }
      ∷ []
unfolding utilization_data
bars = refl

in_need : length (needs_attention fleet) ≡ 3
unfolding needs_attention
in_need = refl
