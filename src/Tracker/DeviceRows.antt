-- ===== src/Tracker/DeviceRows.antt =====
-- The rows of `tracker_device` (src/tracker/entities/tracker-device.entity.ts) and the patches of
-- src/tracker/persistence/tracker-persistence.service.ts.
use avt_tracker.Base.{ℕ, Option, none, Bool, false}
use avt_tracker.Base.Int.{ℤ, Scaled}
use avt_tracker.Base.Text.{Text}
use avt_tracker.Storage.{Schema, given_or}
use avt_tracker.Tracker.Kinds.{TrackerFrameKind}

-- The columns of `tracker_device`; `none` is null. The database's own dates are left out.
pub record TrackerDevice : Type 0 where
  pub imei : Text
  pub alias : Option Text
  pub last_seen_at : Option ℤ
  pub last_report_at : Option ℤ
  pub last_frame_kind : Option TrackerFrameKind
  pub last_latitude : Option Scaled
  pub last_longitude : Option Scaled
  pub last_altitude_m : Option ℤ
  pub last_speed_kmh : Option ℕ
  pub last_event_type : Option ℕ
  pub last_event_name : Option Text
  pub last_battery_level_percent : Option ℕ
  pub last_battery_voltage_mv : Option ℕ
  pub last_network_type : Option ℕ
  pub tcp_connected : Bool

-- What an upsert names; `none` is a column that it leaves out.
pub record DevicePatch : Type 0 where
  pub imei : Text
  pub tcp_connected : Bool
  pub last_seen_at : Option ℤ
  pub last_report_at : Option ℤ
  pub last_frame_kind : Option TrackerFrameKind
  pub last_latitude : Option Scaled
  pub last_longitude : Option Scaled
  pub last_altitude_m : Option ℤ
  pub last_speed_kmh : Option ℕ
  pub last_event_type : Option ℕ
  pub last_event_name : Option Text
  pub last_battery_level_percent : Option ℕ
  pub last_battery_voltage_mv : Option ℕ
  pub last_network_type : Option ℕ

abbrev pub bare_device : Text → TrackerDevice
bare_device imei = record {
  imei = imei;
  alias = none;
  last_seen_at = none;
  last_report_at = none;
  last_frame_kind = none;
  last_latitude = none;
  last_longitude = none;
  last_altitude_m = none;
  last_speed_kmh = none;
  last_event_type = none;
  last_event_name = none;
  last_battery_level_percent = none;
  last_battery_voltage_mv = none;
  last_network_type = none;
  tcp_connected = false;
}

abbrev pub patch_device : DevicePatch → TrackerDevice → TrackerDevice
patch_device patch row = record row {
  tcp_connected = patch.tcp_connected;
  last_seen_at = given_or patch.last_seen_at row.last_seen_at;
  last_report_at = given_or patch.last_report_at row.last_report_at;
  last_frame_kind = given_or patch.last_frame_kind row.last_frame_kind;
  last_latitude = given_or patch.last_latitude row.last_latitude;
  last_longitude = given_or patch.last_longitude row.last_longitude;
  last_altitude_m = given_or patch.last_altitude_m row.last_altitude_m;
  last_speed_kmh = given_or patch.last_speed_kmh row.last_speed_kmh;
  last_event_type = given_or patch.last_event_type row.last_event_type;
  last_event_name = given_or patch.last_event_name row.last_event_name;
  last_battery_level_percent =
      given_or patch.last_battery_level_percent row.last_battery_level_percent;
  last_battery_voltage_mv = given_or patch.last_battery_voltage_mv row.last_battery_voltage_mv;
  last_network_type = given_or patch.last_network_type row.last_network_type;
}

abbrev pub device_schema : Schema
device_schema = record {
  Row = TrackerDevice;
  Patch = DevicePatch;
  key = λ patch. patch.imei;
  blank = bare_device;
  patched = patch_device;
}

-- `{ imei, tcpConnected }`
abbrev pub bare_patch : Text → Bool → DevicePatch
bare_patch imei tcp_connected = record {
  imei = imei;
  tcp_connected = tcp_connected;
  last_seen_at = none;
  last_report_at = none;
  last_frame_kind = none;
  last_latitude = none;
  last_longitude = none;
  last_altitude_m = none;
  last_speed_kmh = none;
  last_event_type = none;
  last_event_name = none;
  last_battery_level_percent = none;
  last_battery_voltage_mv = none;
  last_network_type = none;
}
