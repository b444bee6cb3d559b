-- ===== src/Starlink/DeviceRows.antt =====
-- The rows of `starlink_device` (src/starlink/entities/starlink-device.entity.ts) and the patches
-- of src/starlink/persistence/starlink-persistence.service.ts.
use avt_tracker.Base.{Option, none, some, Bool, true, false}
use avt_tracker.Base.Int.{ℤ}
use avt_tracker.Base.Text.{Text}
use avt_tracker.Storage.{Schema, given_or}
use avt_tracker.Starlink.Codec.{Floats}
use avt_tracker.Starlink.Payload.{StarlinkFrameHeader, StarlinkReportPayload}

-- `report.deviceTime ?? now`: a time that could not be read is like none.
abbrev pub time_or_now : Option (Option ℤ) → ℤ → ℤ
time_or_now none now = now
time_or_now (some none) now = now
time_or_now (some (some time)) now = time

-- The event's name, where there is an event: `devicePatch.lastEventName`.
abbrev pub name_with : Option ℤ → Option Text → Option (Option Text)
name_with none name = none
name_with (some event_id) name = some name

-- A column that a patch leaves out, or sets, to null among others.
abbrev pub set_or : {A : Type 0} → Option (Option A) → Option A → Option A
set_or none old = old
set_or (some value) old = value

module _ (js : Floats) where
  open js use {Num, parse_float}

  -- The columns of `starlink_device`; `none` is null. The database's own dates are left out.
  pub record StarlinkDevice : Type 0 where
    pub device_id : Text
    pub alias : Option Text
    pub last_seen_at : Option ℤ
    pub last_report_at : Option ℤ
    pub last_event_id : Option ℤ
    pub last_event_name : Option Text
    pub last_latitude : Option Num
    pub last_longitude : Option Num
    pub last_speed_knots : Option Num
    pub last_speed_kmh : Option Num
    pub last_ignition : Option Bool
    pub last_battery_voltage : Option Num
    pub last_main_power_voltage : Option Num
    pub tcp_connected : Bool

  -- What an upsert names; `none` is a column that it leaves out.
  pub record DevicePatch : Type 0 where
    pub device_id : Text
    pub last_seen_at : Option ℤ
    pub last_report_at : Option ℤ
    pub last_event_id : Option ℤ
    pub last_event_name : Option (Option Text)
    pub last_latitude : Option Num
    pub last_longitude : Option Num
    pub last_speed_knots : Option Num
    pub last_speed_kmh : Option Num
    pub last_ignition : Option Bool
    pub last_battery_voltage : Option Num
    pub last_main_power_voltage : Option Num
    pub tcp_connected : Bool

  abbrev pub bare_device : Text → StarlinkDevice
  bare_device device_id = record {
    device_id = device_id;
    alias = none;
    last_seen_at = none;
    last_report_at = none;
    last_event_id = none;
    last_event_name = none;
    last_latitude = none;
    last_longitude = none;
    last_speed_knots = none;
    last_speed_kmh = none;
    last_ignition = none;
    last_battery_voltage = none;
    last_main_power_voltage = none;
    tcp_connected = false;
  }

  abbrev pub patch_device : DevicePatch → StarlinkDevice → StarlinkDevice
  patch_device patch row = record row {
    tcp_connected = patch.tcp_connected;
    last_seen_at = given_or patch.last_seen_at row.last_seen_at;
    last_report_at = given_or patch.last_report_at row.last_report_at;
    last_event_id = given_or patch.last_event_id row.last_event_id;
    last_event_name = set_or patch.last_event_name row.last_event_name;
    last_latitude = given_or patch.last_latitude row.last_latitude;
    last_longitude = given_or patch.last_longitude row.last_longitude;
    last_speed_knots = given_or patch.last_speed_knots row.last_speed_knots;
    last_speed_kmh = given_or patch.last_speed_kmh row.last_speed_kmh;
    last_ignition = given_or patch.last_ignition row.last_ignition;
    last_battery_voltage = given_or patch.last_battery_voltage row.last_battery_voltage;
    last_main_power_voltage = given_or patch.last_main_power_voltage row.last_main_power_voltage;
  }

  abbrev pub device_schema : Schema
  device_schema = record {
    Row = StarlinkDevice;
    Patch = DevicePatch;
    key = λ patch. patch.device_id;
    blank = bare_device;
    patched = patch_device;
  }

  -- `{ deviceId, tcpConnected }`
  abbrev pub bare_patch : Text → Bool → DevicePatch
  bare_patch device_id tcp_connected = record {
    device_id = device_id;
    tcp_connected = tcp_connected;
    last_seen_at = none;
    last_report_at = none;
    last_event_id = none;
    last_event_name = none;
    last_latitude = none;
    last_longitude = none;
    last_speed_knots = none;
    last_speed_kmh = none;
    last_ignition = none;
    last_battery_voltage = none;
    last_main_power_voltage = none;
  }

  -- `devicePatch`
  abbrev pub report_patch : ℤ → StarlinkFrameHeader → StarlinkReportPayload js → DevicePatch
  report_patch now header report = record {
    device_id = header.device_id;
    tcp_connected = true;
    last_seen_at = some now;
    last_report_at = some (time_or_now report.device_time now);
    last_event_id = report.event_id;
    last_event_name = name_with report.event_id report.event_name;
    last_latitude = report.latitude;
    last_longitude = report.longitude;
    last_speed_knots = report.speed_knots;
    last_speed_kmh = report.speed_kmh;
    last_ignition = report.ignition;
    last_battery_voltage = report.battery_voltage;
    last_main_power_voltage = report.main_power_voltage;
  }
