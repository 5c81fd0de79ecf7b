-- ===== src/Landing/Mockup.antt =====
-- ui/app/page.tsx: the figures and the sample data that the landing page shows.
use edge_guardian.Base.{
  ℕ, suc, ◌+◌, ◌*◌, Option, Bool, List, [], ◌∷◌, map, take, Text, codes, ltb, ◌==◌, text_eq, lookup,
  if◌then◌else◌,
}

pub record MockDevice : Type 0 where
  pub name : Text
  pub status : Text
  pub cpu : Text
  pub mem : Text
  pub region : Text

abbrev pub mock_device : Text → Text → Text → Text → Text → MockDevice
mock_device name status cpu mem region = record {
  name = name;
  status = status;
  cpu = cpu;
  mem = mem;
  region = region;
}

abbrev pub mock_devices : List MockDevice
mock_devices =
    mock_device (codes "rpi-gateway-01") (codes "online") (codes "23%") (codes "41%")
      (codes "us-west")
    ∷ mock_device (codes "jetson-ai-07") (codes "online") (codes "67%") (codes "72%")
        (codes "eu-central")
    ∷ mock_device (codes "esp32-temp-04") (codes "degraded") (codes "89%") (codes "34%")
        (codes "ap-south")
    ∷ mock_device (codes "nuc-edge-05") (codes "online") (codes "12%") (codes "28%")
        (codes "us-east")
    ∷ mock_device (codes "rpi-sensor-02") (codes "online") (codes "45%") (codes "55%")
        (codes "eu-west")
    ∷ []

abbrev pub chart_bars : List ℕ
chart_bars =
    40 ∷ 55 ∷ 38 ∷ 72 ∷ 65 ∷ 48 ∷ 82 ∷ 58 ∷ 45 ∷ 90 ∷ 75 ∷ 62 ∷ 50 ∷ 68 ∷ 78 ∷ 42 ∷ 85 ∷ 55 ∷ 70
    ∷ 60 ∷ []

pub record MockLog : Type 0 where
  pub time : Text
  pub level : Text
  pub msg : Text
  pub src : Text

abbrev pub mock_log : Text → Text → Text → Text → MockLog
mock_log time level msg src = record { time = time; level = level; msg = msg; src = src }

abbrev pub mock_logs : List MockLog
mock_logs =
    mock_log (codes "14:32:01") (codes "info") (codes "Heartbeat received from rpi-gateway-01")
      (codes "fleet")
    ∷ mock_log (codes "14:32:03") (codes "warn")
        (codes "CPU threshold exceeded (89%) on esp32-temp-04") (codes "health")
    ∷ mock_log (codes "14:32:05") (codes "info")
        (codes "Firmware v2.5.0 verified, initiating install") (codes "ota")
    ∷ mock_log (codes "14:32:06") (codes "info") (codes "Desired state reconciled on jetson-ai-07")
        (codes "reconciler")
    ∷ mock_log (codes "14:32:08") (codes "info") (codes "OTA rollout 92% complete for fleet-west")
        (codes "deploy")
    ∷ []

abbrev pub st_dot : List (Text × Text)
st_dot =
    (codes "online", codes "bg-emerald-400")
    ∷ (codes "degraded", codes "bg-amber-400")
    ∷ (codes "offline", codes "bg-zinc-600")
    ∷ []

-- A row of the sample fleet: the dot, none if the status has none, the name and the CPU.
unfoldable pub mock_row : MockDevice → Option Text × Text × Text
unfolding lookup
mock_row d = (lookup d.status st_dot, d.name, d.cpu)

-- The card shows all devices, the mockup of the dashboard the first four.
unfoldable pub card_rows : List (Option Text × Text × Text)
unfolding mock_row
card_rows = map mock_row mock_devices

unfoldable pub mockup_rows : List (Option Text × Text × Text)
unfolding mock_row take
mockup_rows = map mock_row (take 4 mock_devices)

-- A bar of the chart of the mockup: its height in percent, whether it is in the warning colour, and
-- when it starts to grow, in milliseconds.
pub record Bar : Type 0 where
  pub height : ℕ
  pub warns : Bool
  pub delay : ℕ

unfoldable pub bars_from : ℕ → List ℕ → List Bar
bars_from i [] = []
bars_from i (h ∷ hs) =
    record { height = h; warns = ltb 80 h; delay = 800 + i * 50 } ∷ bars_from (suc i) hs

pub data Progress : Type 0 where
  done running waiting : Progress

-- The cells of the progress of an update.
unfoldable pub progress_cell : ℕ → Progress
progress_cell i = if ltb i 12 then done else if ltb i 13 then running else waiting

unfoldable pub log_level_class : MockLog → Text
log_level_class e =
    if text_eq e.level (codes "warn")
    then codes "text-amber-600 dark:text-amber-400"
    else codes "text-emerald-600 dark:text-emerald-400/70"

-- The entry of the mockup's sidebar that is marked, of five.
abbrev pub marked_entry : ℕ → Bool
marked_entry i = i == 2

pub record Stat : Type 0 where
  pub value : Text
  pub label : Text
  pub suffix : Text

abbrev pub stat : Text → Text → Text → Stat
stat value label suffix = record { value = value; label = label; suffix = suffix }

abbrev pub stats : List Stat
stats =
    stat (codes "1,847") (codes "Devices Managed") (codes "")
    ∷ stat (codes "99.9") (codes "Uptime SLA") (codes "%")
    ∷ stat (codes "< 5") (codes "Agent Binary") (codes " MB")
    ∷ stat (codes "30") (codes "Reconcile Cycle") (codes "s")
    ∷ []

-- The figures of the fleet card, with their colours, and of the mockup.
abbrev pub card_figures : List (Text × Text × Text)
card_figures =
    (codes "1,847", codes "total", codes "text-foreground")
    ∷ (codes "1,823", codes "online", codes "text-emerald-600 dark:text-emerald-400")
    ∷ (codes "24", codes "attention", codes "text-amber-600 dark:text-amber-400")
    ∷ []

abbrev pub mockup_figures : List (Text × Text)
mockup_figures =
    (codes "Devices", codes "1,847")
    ∷ (codes "Online", codes "1,823")
    ∷ (codes "Deploying", codes "12")
    ∷ []

-- The links at the foot of the page.
abbrev pub footer_links : List (Text × Text)
footer_links =
    (codes "/terms", codes "Terms & Legal")
    ∷ (codes "#features", codes "Features")
    ∷ (codes "#terminal", codes "Demo")
    ∷ []
