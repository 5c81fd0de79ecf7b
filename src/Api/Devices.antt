-- ===== src/Api/Devices.antt =====
-- ui/lib/api/devices.ts. A percentage of use is in thousandths of a percent.
use edge_guardian.Base.{
  ℕ, Bool, Option, none, some, List, [], ◌∷◌, ◌++◌, map, Text, codes, truthy, if◌then◌else◌, ◌==◌,
  insert,
}
use edge_guardian.Decimal.{to_string}
use edge_guardian.Query.{query_string}
use edge_guardian.Endpoints.{
  url, devices_list, devices_by_id, devices_count, devices_manifest, devices_logs, devices_labels,
  devices_telemetry, devices_telemetry_hourly,
}
use edge_guardian.Json.{Scalar, str}
use edge_guardian.Api.Request.{Call, get, send, send_json, put, delete}

pub record DeviceStatus : Type 0 where
  pub cpu_usage_percent : Option ℕ
  pub memory_used_bytes : ℕ
  pub memory_total_bytes : ℕ
  pub disk_used_bytes : ℕ
  pub disk_total_bytes : ℕ
  pub uptime_seconds : ℕ
  pub last_reconcile : Option Text
  pub reconcile_status : Text

pub record Device : Type 0 where
  pub device_id : Text
  pub hostname : Text
  pub architecture : Text
  pub os : Text
  pub agent_version : Text
  pub labels : List (Text × Text)
  pub state : Text
  pub registered_at : Text
  pub last_heartbeat : Option Text
  pub auto_update : Option Bool
  pub status : Option DeviceStatus

unfoldable pub list_devices : Text → Call
list_devices token = get (url devices_list) token

unfoldable pub get_device : Text → Text → Call
get_device token device_id = get (url (devices_by_id device_id)) token

unfoldable pub delete_device : Text → Text → Call
delete_device token device_id = send delete (url (devices_by_id device_id)) token

unfoldable pub get_device_count : Text → Call
get_device_count token = get (url devices_count) token

unfoldable pub get_device_manifest : Text → Text → Call
get_device_manifest token device_id = get (url (devices_manifest device_id)) token

-- The optional `params` of `getDeviceLogs`.
pub record LogParams : Type 0 where
  pub start : Option Text
  pub end : Option Text
  pub limit : Option ℕ
  pub level : Option Text
  pub search : Option Text

-- `if (value) q.set(name, value)`
abbrev pub set_text : Text → Option Text → List (Text × Text) → List (Text × Text)
set_text name none q = q
set_text name (some v) q = if truthy v then insert name v q else q

-- `if (value) q.set(name, String(value))`: zero is falsy.
abbrev pub set_number : Text → Option ℕ → List (Text × Text) → List (Text × Text)
set_number name none q = q
set_number name (some n) q = if n == 0 then q else insert name (to_string n) q

unfoldable pub log_query : Option LogParams → List (Text × Text)
log_query none = []
log_query (some p) = set_text (codes "search") p.search (
    set_text (codes "level") p.level (
      set_number (codes "limit") p.limit
        (set_text (codes "end") p.end (set_text (codes "start") p.start []))))

unfoldable pub get_device_logs : Text → Text → Option LogParams → Call
unfolding log_query
get_device_logs token device_id params =
    get (url (devices_logs device_id) ++ b'?' ∷ query_string (log_query params)) token

unfoldable pub update_device_manifest : Text → Text → Text → Call
update_device_manifest token device_id yaml_content =
    send_json put (url (devices_manifest device_id)) ((codes "content", str yaml_content) ∷ [])
      token

abbrev pub text_member : Text × Text → Text × Scalar
text_member (k, v) = (k, str v)

unfoldable pub update_device_labels : Text → Text → List (Text × Text) → Call
update_device_labels token device_id labels =
    send_json put (url (devices_labels device_id)) (map text_member labels) token

pub record TelemetryDataPoint : Type 0 where
  pub time : Text
  pub cpu_usage_percent : Option ℕ
  pub memory_used_bytes : ℕ
  pub memory_total_bytes : ℕ
  pub disk_used_bytes : ℕ
  pub disk_total_bytes : ℕ
  pub uptime_seconds : ℕ
  pub reconcile_status : Text

pub data TelemetryBucket : Type 0 where
  raw hourly : TelemetryBucket

pub record TelemetryParams : Type 0 where
  pub start : Text
  pub end : Text
  pub bucket : Option TelemetryBucket

abbrev pub telemetry_url : Text → Option TelemetryBucket → Text
telemetry_url device_id (some hourly) = url (devices_telemetry_hourly device_id)
telemetry_url device_id _ = url (devices_telemetry device_id)

unfoldable pub get_device_telemetry : Text → Text → TelemetryParams → Call
get_device_telemetry token device_id params =
    get
      (telemetry_url device_id params.bucket
        ++ b'?' ∷ query_string ((codes "start", params.start) ∷ (codes "end", params.end) ∷ []))
      token
