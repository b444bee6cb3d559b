-- ===== src/Tracker/Monitor.antt =====
-- The device lists and the limits of src/tracker/tracker.controller.ts; `devices` is what
-- `findAllDevices` gives.
pub mod Online
pub mod Runs
use avt_tracker.Base.{ℕ, List, [], ◌∷◌, Option, none, some, Bool, length, map, zero, suc, min}
use avt_tracker.Base.Dict.Keys.{in_set}
use avt_tracker.Base.Int.{ℤ, pos, negsuc, Scaled}
use avt_tracker.Base.Text.{Text}
use avt_tracker.Tracker.DeviceRows.{TrackerDevice}
use avt_tracker.Tracker.Kinds.{TrackerFrameKind}
use avt_tracker.Tracker.Registry.{
  Registry, TrackerConnectionInfo, is_connected, get_connected_imeis, get_connection_info,
}

pub record Position : Type 0 where
  pub latitude : Scaled
  pub longitude : Scaled
  pub altitude_m : Option ℤ
  pub speed_kmh : Option ℕ

-- One entry of `GET devices`.
pub record DeviceEntry : Type 0 where
  pub imei : Text
  pub alias : Option Text
  pub online : Bool
  pub last_seen_at : Option ℤ
  pub last_report_at : Option ℤ
  pub last_frame_kind : Option TrackerFrameKind
  pub last_position : Option Position
  pub last_event : Option (ℕ × Option Text)
  pub battery : Option (ℕ × Option ℕ)
  pub network_type : Option ℕ

-- `type != null ? { type, name } : null`
abbrev pub with_second : {A B : Type 0} → Option A → Option B → Option (A × Option B)
with_second none second = none
with_second (some first) second = some (first, second)

abbrev pub position_of : Option Scaled → Option Scaled → Option ℤ → Option ℕ → Option Position
position_of none longitude altitude_m speed_kmh = none
position_of (some latitude) none altitude_m speed_kmh = none
position_of (some latitude) (some longitude) altitude_m speed_kmh = some (record {
  latitude = latitude;
  longitude = longitude;
  altitude_m = altitude_m;
  speed_kmh = speed_kmh;
})

abbrev pub device_entry : Registry → TrackerDevice → DeviceEntry
device_entry registry device = record {
  imei = device.imei;
  alias = device.alias;
  online = is_connected device.imei registry;
  last_seen_at = device.last_seen_at;
  last_report_at = device.last_report_at;
  last_frame_kind = device.last_frame_kind;
  last_position =
      position_of device.last_latitude device.last_longitude device.last_altitude_m
        device.last_speed_kmh;
  last_event = with_second device.last_event_type device.last_event_name;
  battery = with_second device.last_battery_level_percent device.last_battery_voltage_mv;
  network_type = device.last_network_type;
}

-- `listDevices`
unfoldable pub list_devices : List TrackerDevice → Registry → List DeviceEntry
list_devices devices registry = map (device_entry registry) devices

-- One entry of `GET monitor/overview`.
pub record OverviewEntry : Type 0 where
  pub imei : Text
  pub alias : Option Text
  pub online : Bool
  pub connected_at : Option ℕ
  pub last_activity_at : Option ℕ
  pub last_seen_at : Option ℤ
  pub last_report_at : Option ℤ
  pub last_event_name : Option Text

pub record Overview : Type 0 where
  pub total_devices : ℕ
  pub connected_now : ℕ
  pub devices : List OverviewEntry

-- `connectionInfo?.field ?? null`
abbrev pub info_field : (TrackerConnectionInfo → ℕ) → Option TrackerConnectionInfo → Option ℕ
info_field field none = none
info_field field (some info) = some (field info)

abbrev pub overview_entry : Registry → TrackerDevice → OverviewEntry
overview_entry registry device =
    let info = get_connection_info device.imei registry in
    record {
      imei = device.imei;
      alias = device.alias;
      online = in_set device.imei (get_connected_imeis registry);
      connected_at = info_field (λ (i : TrackerConnectionInfo). i.connected_at) info;
      last_activity_at = info_field (λ (i : TrackerConnectionInfo). i.last_activity_at) info;
      last_seen_at = device.last_seen_at;
      last_report_at = device.last_report_at;
      last_event_name = device.last_event_name;
    }

-- `monitorOverview`; a map's keys are distinct, so the set of them has as many.
unfoldable pub monitor_overview : List TrackerDevice → Registry → Overview
monitor_overview devices registry = record {
  total_devices = length devices;
  connected_now = length (get_connected_imeis registry);
  devices = map (overview_entry registry) devices;
}
