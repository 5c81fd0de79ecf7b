-- ===== src/DevicePage/Overview.antt =====
-- ui/app/(dashboard)/devices/[id]/page.tsx: the cards, the labels as they are shown, and the deletion
-- of the device. A quotient is taken exactly; the distance of a time to now is a parameter, from
-- date-fns, and so is the exponent that the quotient of two logarithms gives.
pub mod Bytes
use edge_guardian.Base.{
  ℕ, zero, suc, ◌+◌, ◌*◌, ◌/◌, ◌%◌, ◌^◌, Bool, false, Option, none, some, List, [], ◌∷◌, ◌++◌, map,
  Text, codes, truthy, ◌==◌, if◌then◌else◌, get_or, or_else,
}
use edge_guardian.Decimal.{to_string}
use edge_guardian.Api.Request.{Call}
use edge_guardian.Api.Devices.{Device, DeviceStatus, delete_device, update_device_labels}
use edge_guardian.ConfirmDialog.{confirm_clicked}
use edge_guardian.DevicePage.{PageState, format_uptime}

-- `toFixed(1)` of so many tenths
unfoldable pub fixed_one : ℕ → Text
unfolding to_string
fixed_one tenths = to_string (tenths / 10) ++ b'.' ∷ to_string (tenths % 10)

-- The tenths to which `part / whole` is rounded.
unfoldable pub tenths_of : ℕ → ℕ → ℕ
tenths_of part whole = (20 * part + whole) / (2 * whole)

abbrev pub sizes : List Text
sizes = codes "B" ∷ codes "KB" ∷ codes "MB" ∷ codes "GB" ∷ codes "TB" ∷ []

-- `sizes[i]` in a template literal
unfoldable pub size_at : ℕ → List Text → Text
size_at i [] = codes "undefined"
size_at zero (x ∷ xs) = x
size_at (suc i) (x ∷ xs) = size_at i xs

-- `exponent` is `Math.floor(Math.log(bytes) / Math.log(1024))`.
unfoldable pub format_bytes : (ℕ → ℕ) → ℕ → Text
unfolding fixed_one tenths_of size_at
format_bytes exponent bytes =
    if bytes == 0
    then codes "0 B"
    else fixed_one (tenths_of bytes (1024 ^ exponent bytes))
      ++ b' ' ∷ size_at (exponent bytes) sizes

-- `Math.round((used / total) * 100)`, 0 without a total
unfoldable pub usage_percent : ℕ → ℕ → ℕ
usage_percent used total = if total == 0 then 0 else (200 * used + total) / (2 * total)

pub record Card : Type 0 where
  pub title : Text
  pub value : Text
  pub description : Text

-- The four cards.
module _ (exponent : ℕ → ℕ) (distance : Text → Text) where
  abbrev pub cpu_text : Option ℕ → Text
  cpu_text none = codes "--%"
  cpu_text (some c) = fixed_one ((c + 50) / 100) ++ codes "%"

  abbrev pub cpu_card : Option DeviceStatus → Card
  cpu_card status = record {
    title = codes "CPU Usage";
    value = elim status [ none ↦ codes "--%" | some s ↦ cpu_text s.cpu_usage_percent ];
    description = codes "Current utilization";
  }

  abbrev pub amount : Text → ℕ → ℕ → Card
  amount title used total = record {
    title = title;
    value = to_string (usage_percent used total) ++ codes "%";
    description = format_bytes exponent used ++ codes " / " ++ format_bytes exponent total;
  }

  abbrev pub memory_card : Option DeviceStatus → Card
  memory_card none = record { title = codes "Memory"; value = codes "0%"; description = codes "--" }
  memory_card (some s) = amount (codes "Memory") s.memory_used_bytes s.memory_total_bytes

  abbrev pub disk_card : Option DeviceStatus → Card
  disk_card none = record { title = codes "Disk"; value = codes "0%"; description = codes "--" }
  disk_card (some s) = amount (codes "Disk") s.disk_used_bytes s.disk_total_bytes

  -- `status?.uptimeSeconds ? formatUptime(…) : "--"`
  unfoldable pub uptime_text : Option DeviceStatus → Text
  unfolding format_uptime
  uptime_text none = codes "--"
  uptime_text (some s) =
      if s.uptime_seconds == 0 then codes "--" else format_uptime s.uptime_seconds

  unfoldable pub seen : Option Text → Text
  seen none = codes "Never seen"
  seen (some t) = if truthy t then codes "Last seen " ++ distance t else codes "Never seen"

  unfoldable pub cards : Device → List Card
  unfolding fixed_one to_string usage_percent format_bytes uptime_text seen
  cards d =
      cpu_card d.status
      ∷ memory_card d.status
      ∷ disk_card d.status
      ∷ record {
        title = codes "Uptime";
        value = uptime_text d.status;
        description = seen d.last_heartbeat;
      }
      ∷ []

  -- The list of terms and values under `Device Information`.
  unfoldable pub information : Device → List (Text × Text)
  unfolding uptime_text
  information d =
      (codes "OS / Arch", d.os ++ b'/' ∷ d.architecture)
      ∷ (codes "Agent Version", d.agent_version)
      ∷ (codes "Uptime", uptime_text d.status)
      ∷ (
        codes "Last Heartbeat",
        elim (d.last_heartbeat) [
          | none ↦ codes "Never"
          | some t ↦ if truthy t then distance t else codes "Never"
        ],
      )
      ∷ (codes "Registered", distance d.registered_at)
      ∷ (
        codes "Reconcile Status",
        elim (d.status) [ none ↦ codes "unknown" | some s ↦ s.reconcile_status ],
      )
      ∷ (codes "Auto-update", if get_or d.auto_update false then codes "on" else codes "off")
      ∷ []

-- The header of the page: `device.hostname || device.deviceId`.
unfoldable pub heading : Device → Text
heading d = or_else d.hostname d.device_id

-- How the labels are shown.
pub data LabelsView : Type 0 where
  editor : List Text → LabelsView
  badges : List Text → LabelsView
  no_labels : LabelsView

abbrev pub badge : Text × Text → Text
badge (k, v) = k ++ b'=' ∷ v

unfoldable pub labels_view : Device → PageState → LabelsView
labels_view d s =
    if s.editing_labels
    then editor (map badge s.local_labels)
    else (elim (d.labels) [ [] ↦ no_labels | l ∷ ls ↦ badges (map badge (l ∷ ls)) ])

-- The button that saves the labels, disabled while the mutation runs.
unfoldable pub save_labels_clicked : Text → Text → Bool → PageState → Option Call
unfolding update_device_labels
save_labels_clicked token id is_pending s =
    if is_pending then none else some (update_device_labels token id s.local_labels)

-- The dialog of the deletion, with the address of the router.
pub record Deletion : Type 0 where
  pub delete_open : Bool
  pub address : Text
  pub toast : Option Text

unfoldable pub set_delete_open : Bool → Deletion → Deletion
set_delete_open b d = record d { delete_open = b }

unfoldable pub delete_question : Device → Text
delete_question d =
    codes "Are you sure you want to delete "
    ++ d.hostname
    ++ codes "? This action cannot be undone."

unfoldable pub delete_confirmed : Text → Text → Bool → Option Call
unfolding confirm_clicked delete_device
delete_confirmed token id loading = confirm_clicked loading (some (delete_device token id))

unfoldable pub device_deleted : Deletion → Deletion
device_deleted d = record d { address = codes "/devices"; toast = some (codes "Device deleted") }

unfoldable pub delete_failed : Text → Deletion → Deletion
delete_failed message d = record d { toast = some message }
