-- ===== src/Starlink/Persistence/Tellings.antt =====
-- What the calls of the StarLink service say of a unit, from what they were given.
use avt_tracker.Base.{◌≡◌, ◌∷◌, [], List, none, Bool, some, Option}
use avt_tracker.Base.Int.{ℤ}
use avt_tracker.Base.Text.{Text}
use avt_tracker.Starlink.Codec.{Whole, Floats}
use avt_tracker.Starlink.DeviceRows.{device_schema, StarlinkDevice}
use avt_tracker.Starlink.Payload.{ParsedStarlinkFrame, StarlinkReportPayload}
use avt_tracker.Starlink.Persistence.{given_or, find_device}
use avt_tracker.Starlink.Persistence.Snapshot.{
  report_saved, disconnected, connected, all_calls, Call,
}
use avt_tracker.Starlink.ReportRows.{StarlinkReport}
use avt_tracker.Storage.{Database, ReportRepository, DeviceRepository}
use avt_tracker.Storage.Latest.{latest}

module _ (js : Floats) where
  -- A column of a row that may not be there.
  abbrev pub in_device :
      {A : Type 0} → (StarlinkDevice js → Option A) → Option (StarlinkDevice js) → Option A
  in_device column none = none
  in_device column (some row) = column row

  -- What a report says, with the time of the call.
  abbrev pub Telling : Type 0 → Type 0
  Telling A = ℤ → StarlinkReportPayload js → Option A

  -- The unit's own time, where the report has one that could be read.
  abbrev pub device_time_or_now : Telling ℤ
  device_time_or_now now report = elim report.device_time [
    | none ↦ some now
    | some read ↦ elim read [ none ↦ some now | some time ↦ some time ]
  ]

  -- What is compared of a row of `starlink_report`.
  pub record ReportRow : Type 0 where
    pub device_id : Text
    pub message_index : Whole
    pub event_id : Option ℤ
    pub latitude : Option js.Num
    pub longitude : Option js.Num
    pub speed_knots : Option js.Num
    pub course : Option ℤ
    pub ignition : Option Bool
    pub battery_voltage : Option js.Num
    pub main_power_voltage : Option js.Num
    pub payload : StarlinkReportPayload js
    pub raw_line : Text

  abbrev pub read_row : StarlinkReport js → ReportRow
  read_row row = record {
    device_id = row.device_id;
    message_index = row.message_index;
    event_id = row.event_id;
    latitude = row.latitude;
    longitude = row.longitude;
    speed_knots = row.speed_knots;
    course = row.course;
    ignition = row.ignition;
    battery_voltage = row.battery_voltage;
    main_power_voltage = row.main_power_voltage;
    payload = row.payload;
    raw_line = row.raw_line;
  }

module _ (js : Floats) (text_of : js.Num → Text) (devices : DeviceRepository (device_schema js))
    (reports : ReportRepository (StarlinkReport js)) where
  abbrev pub device_of : Call js text_of devices reports → Text
  device_of (connected now device_id) = device_id
  device_of (disconnected now device_id) = device_id
  device_of (report_saved now parsed) = parsed.header.device_id

  abbrev pub told : {A : Type 0} → Telling js A → ℤ → Option (StarlinkReportPayload js) → Option A
  told telling now none = none
  told telling now (some report) = telling now report

  -- A connection tells the time at most, a report tells what it holds, a close tells nothing.
  abbrev pub says :
      {A : Type 0} → (ℤ → Option A) → Telling js A → Call js text_of devices reports → Option A
  says at_connection telling (connected now device_id) = at_connection now
  says at_connection telling (disconnected now device_id) = none
  says at_connection telling (report_saved now parsed) = told telling now parsed.report

  abbrev pub row_told :
      ParsedStarlinkFrame js → Option (StarlinkReportPayload js) → List (ReportRow js)
  row_told parsed none = []
  row_told parsed (some report) =
      record {
        device_id = parsed.header.device_id;
        message_index = parsed.header.message_index;
        event_id = report.event_id;
        latitude = report.latitude;
        longitude = report.longitude;
        speed_knots = report.speed_knots;
        course = report.course;
        ignition = report.ignition;
        battery_voltage = report.battery_voltage;
        main_power_voltage = report.main_power_voltage;
        payload = report;
        raw_line = parsed.raw_line;
      }
      ∷ []

  abbrev pub row_at : Call js text_of devices reports → List (ReportRow js)
  row_at (connected now device_id) = []
  row_at (disconnected now device_id) = []
  row_at (report_saved now parsed) = row_told parsed parsed.report

  -- A column of the unit's row after the calls: what the last call that says something says, or
  -- what was there before.
  abbrev pub Holds :
      {A : Type 0}
      → Text
      → List (Call js text_of devices reports)
      → Database devices reports
      → (StarlinkDevice js → Option A)
      → (ℤ → Option A)
      → Telling js A
      → Type 0
  Holds device_id calls db column at_connection telling =
      in_device js column (
        find_device js text_of devices reports device_id
          (all_calls js text_of devices reports calls db))
      ≡ given_or (latest device_of (says at_connection telling) device_id calls)
          (in_device js column (find_device js text_of devices reports device_id db))

  pub record IsLastKnown (device_id : Text) (calls : List (Call js text_of devices reports))
      (db : Database devices reports) : Type 0 where
    pub seen :
        Holds device_id calls db
          (λ row. row.last_seen_at)
          (λ now. some now)
          (λ now report. some now)
    pub reported :
        Holds device_id calls db (λ row. row.last_report_at) (λ now. none) (device_time_or_now js)
    pub event_id :
        Holds device_id calls db
          (λ row. row.last_event_id)
          (λ now. none)
          (λ now report. report.event_id)
    pub latitude :
        Holds device_id calls db
          (λ row. row.last_latitude)
          (λ now. none)
          (λ now report. report.latitude)
    pub longitude :
        Holds device_id calls db
          (λ row. row.last_longitude)
          (λ now. none)
          (λ now report. report.longitude)
    pub speed_knots :
        Holds device_id calls db
          (λ row. row.last_speed_knots)
          (λ now. none)
          (λ now report. report.speed_knots)
    pub speed_kmh :
        Holds device_id calls db
          (λ row. row.last_speed_kmh)
          (λ now. none)
          (λ now report. report.speed_kmh)
    pub ignition :
        Holds device_id calls db
          (λ row. row.last_ignition)
          (λ now. none)
          (λ now report. report.ignition)
    pub battery_voltage :
        Holds device_id calls db
          (λ row. row.last_battery_voltage)
          (λ now. none)
          (λ now report. report.battery_voltage)
    pub main_power_voltage :
        Holds device_id calls db
          (λ row. row.last_main_power_voltage)
          (λ now. none)
          (λ now report. report.main_power_voltage)
