-- ===== src/Tracker/Persistence/Tellings.antt =====
-- What the calls of the service say of a device, from what they were given.
use avt_tracker.Base.{List, [], ◌∷◌, Option, none, some, ◌≡◌, ℕ}
use avt_tracker.Base.Int.{ℤ, Scaled}
use avt_tracker.Base.Text.{Text}
use avt_tracker.Storage.{DeviceRepository, ReportRepository, Database, given_or}
use avt_tracker.Storage.Latest.{latest}
use avt_tracker.Tracker.Ascii.{Doubles}
use avt_tracker.Tracker.Blocks.Gnss.{GnssBlock, GnssFix}
use avt_tracker.Tracker.DeviceRows.{TrackerDevice, device_schema}
use avt_tracker.Tracker.Header.{TrackerFrameHeader}
use avt_tracker.Tracker.Parser.{ParsedTrackerFrame, report_in}
use avt_tracker.Tracker.Persistence.{find_device}
use avt_tracker.Tracker.Persistence.Snapshot.{
  Call, connected, disconnected, report_saved, all_calls,
}
use avt_tracker.Tracker.Report.{TrackerReportPayload, BatteryBlock}
use avt_tracker.Tracker.ReportRows.{TrackerReport}

-- A value of the first fix of a report's positions, where it has one.
abbrev pub of_fix : {A : Type 0} → (GnssFix → Option A) → Option GnssBlock → Option A
of_fix value none = none
of_fix value (some gnss) = elim gnss.primary [ none ↦ none | some fix ↦ value fix ]

abbrev pub of_battery : (BatteryBlock → ℕ) → Option BatteryBlock → Option ℕ
of_battery value none = none
of_battery value (some battery) = some (value battery)

-- A column of a row that may not be there.
abbrev pub in_device : {A : Type 0} → (TrackerDevice → Option A) → Option TrackerDevice → Option A
in_device column none = none
in_device column (some row) = column row

-- What a report says, with the time of the call and the frame's header.
abbrev pub Telling : Type 0 → Type 0
Telling A = ℤ → TrackerFrameHeader → TrackerReportPayload → Option A

abbrev pub generated_or_now : Telling ℤ
generated_or_now now header report = elim header.generated_at [
  | none ↦ some now
  | some time ↦ some time
]

-- What is compared of a row of `tracker_report`.
pub record ReportRow : Type 0 where
  pub imei : Text
  pub event_type : ℕ
  pub generated_at : Option ℤ
  pub latitude : Option Scaled
  pub longitude : Option Scaled
  pub altitude_m : Option ℤ
  pub speed_kmh : Option ℕ
  pub battery_voltage_mv : Option ℕ
  pub battery_level_percent : Option ℕ
  pub payload : TrackerReportPayload
  pub raw_hex : Text

abbrev pub read_row : TrackerReport → ReportRow
read_row row = record {
  imei = row.imei;
  event_type = row.event_type;
  generated_at = row.generated_at;
  latitude = row.latitude;
  longitude = row.longitude;
  altitude_m = row.altitude_m;
  speed_kmh = row.speed_kmh;
  battery_voltage_mv = row.battery_voltage_mv;
  battery_level_percent = row.battery_level_percent;
  payload = row.payload;
  raw_hex = row.raw_hex;
}

module _ (js : Doubles) (devices : DeviceRepository device_schema)
    (reports : ReportRepository TrackerReport) where
  abbrev pub device_of : Call js devices reports → Text
  device_of (connected now imei) = imei
  device_of (disconnected now imei) = imei
  device_of (report_saved now parsed) = parsed.header.imei

  abbrev pub told :
      {A : Type 0} → Telling A → ℤ → TrackerFrameHeader → Option TrackerReportPayload → Option A
  told telling now header none = none
  told telling now header (some report) = telling now header report

  -- A connection tells the time at most, a report tells what it holds, a close tells nothing.
  abbrev pub says : {A : Type 0} → (ℤ → Option A) → Telling A → Call js devices reports → Option A
  says at_connection telling (connected now imei) = at_connection now
  says at_connection telling (disconnected now imei) = none
  says at_connection telling (report_saved now parsed) =
      told telling now parsed.header (report_in js parsed.content)

  abbrev pub row_told : ParsedTrackerFrame js → Option TrackerReportPayload → List ReportRow
  row_told parsed none = []
  row_told parsed (some report) =
      record {
        imei = parsed.header.imei;
        event_type = report.event_type;
        generated_at = parsed.header.generated_at;
        latitude = of_fix (λ fix. fix.latitude) report.gnss;
        longitude = of_fix (λ fix. fix.longitude) report.gnss;
        altitude_m = of_fix (λ fix. fix.altitude_m) report.gnss;
        speed_kmh = of_fix (λ fix. fix.speed_kmh) report.gnss;
        battery_voltage_mv = of_battery (λ battery. battery.voltage_mv) report.battery;
        battery_level_percent = of_battery (λ battery. battery.level_percent) report.battery;
        payload = report;
        raw_hex = parsed.raw_hex;
      }
      ∷ []

  abbrev pub row_at : Call js devices reports → List ReportRow
  row_at (connected now imei) = []
  row_at (disconnected now imei) = []
  row_at (report_saved now parsed) = row_told parsed (report_in js parsed.content)

  -- A column of the device's row after the calls: what the last call that says something says, or
  -- what was there before.
  abbrev pub Holds :
      {A : Type 0}
      → Text
      → List (Call js devices reports)
      → Database devices reports
      → (TrackerDevice → Option A)
      → (ℤ → Option A)
      → Telling A
      → Type 0
  Holds imei calls db column at_connection telling =
      in_device column (find_device js devices reports imei (all_calls js devices reports calls db))
      ≡ given_or (latest device_of (says at_connection telling) imei calls)
          (in_device column (find_device js devices reports imei db))

  pub record IsLastKnown (imei : Text) (calls : List (Call js devices reports))
      (db : Database devices reports) : Type 0 where
    pub seen :
        Holds imei calls db
          (λ row. row.last_seen_at)
          (λ now. some now)
          (λ now header report. some now)
    pub reported : Holds imei calls db (λ row. row.last_report_at) (λ now. none) generated_or_now
    pub frame_kind :
        Holds imei calls db
          (λ row. row.last_frame_kind)
          (λ now. none)
          (λ now header report. some header.kind)
    pub event_type :
        Holds imei calls db
          (λ row. row.last_event_type)
          (λ now. none)
          (λ now header report. some report.event_type)
    pub event_name :
        Holds imei calls db
          (λ row. row.last_event_name)
          (λ now. none)
          (λ now header report. some report.event_name)
    pub latitude :
        Holds imei calls db
          (λ row. row.last_latitude)
          (λ now. none)
          (λ now header report. of_fix (λ fix. fix.latitude) report.gnss)
    pub longitude :
        Holds imei calls db
          (λ row. row.last_longitude)
          (λ now. none)
          (λ now header report. of_fix (λ fix. fix.longitude) report.gnss)
    pub altitude :
        Holds imei calls db
          (λ row. row.last_altitude_m)
          (λ now. none)
          (λ now header report. of_fix (λ fix. fix.altitude_m) report.gnss)
    pub speed :
        Holds imei calls db
          (λ row. row.last_speed_kmh)
          (λ now. none)
          (λ now header report. of_fix (λ fix. fix.speed_kmh) report.gnss)
    pub battery_level :
        Holds imei calls db
          (λ row. row.last_battery_level_percent)
          (λ now. none)
          (λ now header report. of_battery (λ battery. battery.level_percent) report.battery)
    pub battery_voltage :
        Holds imei calls db
          (λ row. row.last_battery_voltage_mv)
          (λ now. none)
          (λ now header report. of_battery (λ battery. battery.voltage_mv) report.battery)
    pub network_type :
        Holds imei calls db
          (λ row. row.last_network_type)
          (λ now. none)
          (λ now header report. report.network_type)
