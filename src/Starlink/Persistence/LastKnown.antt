-- ===== src/Starlink/Persistence/LastKnown.antt =====
-- The "last known state" of a unit, and the reports, over any calls of the service.
use avt_tracker.Base.{
  inr, inl, Bool-cases, ◌∙◌, list_eq, if◌then◌else◌, Bool, false, ◌++◌, true, map, refl, List, none,
  ◌≡◌, some, Option,
}
use avt_tracker.Base.Int.{ℤ}
use avt_tracker.Base.Text.{Text}
use avt_tracker.Starlink.Codec.{Floats}
use avt_tracker.Starlink.DeviceRows.{
  report_patch, bare_patch, patch_device, bare_device, time_or_now, DevicePatch, device_schema,
  StarlinkDevice,
}
use avt_tracker.Starlink.Payload.{StarlinkFrameHeader, ParsedStarlinkFrame, StarlinkReportPayload}
use avt_tracker.Starlink.Persistence.{find_device}
use avt_tracker.Starlink.Persistence.Snapshot.{
  patch_of, patches_at, service, report_saved, disconnected, connected, all_calls, rows_of, Call,
  entities_at,
}
use avt_tracker.Starlink.Persistence.Tellings.{
  told, says, device_of, Holds, in_device, row_at, row_told, IsLastKnown, read_row, Telling,
  device_time_or_now,
}
use avt_tracker.Starlink.ReportRows.{StarlinkReport}
use avt_tracker.Storage.{given_or, Database, ReportRepository, DeviceRepository}
use avt_tracker.Storage.Columns.{values_for, column_in, last_given, Column}
use avt_tracker.Storage.Latest.{given_by_patch, column-latest, rows-added, added}

module _ (js : Floats) where
  generated_lem :
      (now : ℤ) (report : StarlinkReportPayload js)
      → some (time_or_now report.device_time now) ≡ device_time_or_now js now report
  generated_lem now report = by_time report.device_time
    where
      by_time :
          (time : Option (Option ℤ))
          → some (time_or_now time now) ≡ elim time [
            | none ↦ some now
            | some read ↦ elim read [ none ↦ some now | some time ↦ some time ]
          ]
      by_time none = refl
      by_time (some none) = refl
      by_time (some (some time)) = refl

  -- A nullable column of `starlink_device`.
  abbrev column :
      {A : Type 0} (in_row : StarlinkDevice js → Option A) (in_patch : DevicePatch js → Option A)
      → ((device_id : Text) → in_row (bare_device js device_id) ≡ none)
      → ((patch : DevicePatch js) (row : StarlinkDevice js)
          → in_row (patch_device js patch row) ≡ given_or (in_patch patch) (in_row row))
      → Column (device_schema js)
  column {A = A} in_row in_patch null_first set_or_kept = record {
    Value = A;
    in_row = in_row;
    in_patch = in_patch;
    null_first = null_first;
    set_or_kept = set_or_kept;
  }

module _ (js : Floats) (text_of : js.Num → Text) (devices : DeviceRepository (device_schema js))
    (reports : ReportRepository (StarlinkReport js)) where
  -- One column, where the patches of the service say the same.
  module _ (c : Column (device_schema js)) (at_connection : ℤ → Option c.Value)
      (telling : Telling js c.Value)
      (on_connection : (now : ℤ) (device_id : Text)
        → c.in_patch (record (bare_patch js device_id true) { last_seen_at = some now })
          ≡ at_connection now)
      (on_close : (device_id : Text) → c.in_patch (bare_patch js device_id false) ≡ none)
      (on_report : (now : ℤ) (header : StarlinkFrameHeader) (report : StarlinkReportPayload js)
        → c.in_patch (report_patch js now header report) ≡ telling now report)
      (device_id : Text) where
    report_says :
        (now : ℤ) (parsed : ParsedStarlinkFrame js) (payload : Option (StarlinkReportPayload js))
        → last_given (
            values_for
              (device_schema js)
              c
              device_id
              (patch_of js text_of devices reports now parsed payload))
          ≡ (if list_eq parsed.header.device_id device_id
              then told js text_of devices reports telling now payload
              else none)
    report_says now parsed none = elim (Bool-cases (list_eq parsed.header.device_id device_id)) [
      | inl same ↦ rw same refl
      | inr other ↦ rw other refl
    ]
    report_says now parsed (some report) =
        given_by_patch (device_schema js) c device_id (report_patch js now parsed.header report)
        ∙ rw (on_report now parsed.header report) refl

    call_says :
        (call : Call js text_of devices reports)
        → last_given
            (values_for (device_schema js) c device_id (patches_at js text_of devices reports call))
          ≡ (if list_eq (device_of js text_of devices reports call) device_id
              then says js text_of devices reports at_connection telling call
              else none)
    call_says (connected now other) =
        given_by_patch (device_schema js) c device_id
          (record (bare_patch js other true) { last_seen_at = some now })
        ∙ rw (on_connection now other) refl
    call_says (disconnected now other) =
        given_by_patch (device_schema js) c device_id (bare_patch js other false)
        ∙ rw (on_close other) refl
    call_says (report_saved now parsed) = report_says now parsed parsed.report

    same_column :
        (row : Option (StarlinkDevice js))
        → column_in (device_schema js) devices c row ≡ in_device js c.in_row row
    same_column none = refl
    same_column (some row) = refl

    column-Holds :
        (calls : List (Call js text_of devices reports)) (db : Database devices reports)
        → Holds js text_of devices reports device_id calls db c.in_row at_connection telling
    unfolding find_device
    column-Holds calls db = rw (← same_column) (
        column-latest (device_schema js) (StarlinkReport js) devices reports
          (service js text_of devices reports) (device_of js text_of devices reports) c
          (says js text_of devices reports at_connection telling) device_id call_says calls db)

  rows_say :
      (parsed : ParsedStarlinkFrame js) (payload : Option (StarlinkReportPayload js))
      → map (read_row js) (rows_of js text_of devices reports parsed payload)
        ≡ row_told js text_of devices reports parsed payload
  rows_say parsed none = refl
  rows_say parsed (some report) = refl

  call_rows :
      (call : Call js text_of devices reports)
      → map (read_row js) (entities_at js text_of devices reports call)
        ≡ row_at js text_of devices reports call
  call_rows (connected now device_id) = refl
  call_rows (disconnected now device_id) = refl
  call_rows (report_saved now parsed) = rows_say parsed parsed.report

  -- After any calls of the service, in any order and for any units, a unit's row holds, in each of
  -- ten columns, what the last of the unit's calls that says something of it says: a connection and
  -- a report say when the unit was seen, a report says its own time (or the time of the call, where
  -- it has none that could be read), its event, the position, the two speeds, the ignition and the
  -- two voltages, as far as it has them; a close and a frame without a report say nothing. Where no
  -- call says anything the value from before stays. The table of reports has one more row for each
  -- report, in order, with the report's unit, index, event, position, speed, course, ignition,
  -- voltages, payload and line.
  pub all_calls-IsLastKnownUnit :
      (device_id : Text) (calls : List (Call js text_of devices reports))
      (db : Database devices reports)
      → IsLastKnown js text_of devices reports device_id calls db
        × (map
              (read_row js)
              (reports.rows (all_calls js text_of devices reports calls db).report_table)
            ≡ map (read_row js) (reports.rows db.report_table)
              ++ added (row_at js text_of devices reports) calls)
  all_calls-IsLastKnownUnit device_id calls db = (
    record {
      seen =
          column-Holds
            (column js {A = ℤ} (λ row. row.last_seen_at) (λ patch. patch.last_seen_at) (λ key. refl)
              (λ patch row. refl))
            (λ now. some now) (λ now report. some now) (λ now key. refl) (λ key. refl)
            (λ now header report. refl) device_id calls db;
      reported =
          column-Holds
            (column js {A = ℤ} (λ row. row.last_report_at) (λ patch. patch.last_report_at)
              (λ key. refl) (λ patch row. refl))
            (λ now. none) (device_time_or_now js) (λ now key. refl) (λ key. refl)
            (λ now header report. generated_lem js now report) device_id calls db;
      event_id =
          column-Holds
            (column js {A = ℤ} (λ row. row.last_event_id) (λ patch. patch.last_event_id)
              (λ key. refl) (λ patch row. refl))
            (λ now. none) (λ now report. report.event_id) (λ now key. refl) (λ key. refl)
            (λ now header report. refl) device_id calls db;
      latitude =
          column-Holds
            (column js {A = js.Num} (λ row. row.last_latitude) (λ patch. patch.last_latitude)
              (λ key. refl) (λ patch row. refl))
            (λ now. none) (λ now report. report.latitude) (λ now key. refl) (λ key. refl)
            (λ now header report. refl) device_id calls db;
      longitude =
          column-Holds
            (column js {A = js.Num} (λ row. row.last_longitude) (λ patch. patch.last_longitude)
              (λ key. refl) (λ patch row. refl))
            (λ now. none) (λ now report. report.longitude) (λ now key. refl) (λ key. refl)
            (λ now header report. refl) device_id calls db;
      speed_knots =
          column-Holds
            (column js {A = js.Num} (λ row. row.last_speed_knots) (λ patch. patch.last_speed_knots)
              (λ key. refl) (λ patch row. refl))
            (λ now. none) (λ now report. report.speed_knots) (λ now key. refl) (λ key. refl)
            (λ now header report. refl) device_id calls db;
      speed_kmh =
          column-Holds
            (column js {A = js.Num} (λ row. row.last_speed_kmh) (λ patch. patch.last_speed_kmh)
              (λ key. refl) (λ patch row. refl))
            (λ now. none) (λ now report. report.speed_kmh) (λ now key. refl) (λ key. refl)
            (λ now header report. refl) device_id calls db;
      ignition =
          column-Holds
            (column js {A = Bool} (λ row. row.last_ignition) (λ patch. patch.last_ignition)
              (λ key. refl) (λ patch row. refl))
            (λ now. none) (λ now report. report.ignition) (λ now key. refl) (λ key. refl)
            (λ now header report. refl) device_id calls db;
      battery_voltage =
          column-Holds
            (column js {A = js.Num} (λ row. row.last_battery_voltage)
              (λ patch. patch.last_battery_voltage) (λ key. refl) (λ patch row. refl))
            (λ now. none) (λ now report. report.battery_voltage) (λ now key. refl) (λ key. refl)
            (λ now header report. refl) device_id calls db;
      main_power_voltage =
          column-Holds
            (column js {A = js.Num} (λ row. row.last_main_power_voltage)
              (λ patch. patch.last_main_power_voltage) (λ key. refl) (λ patch row. refl))
            (λ now. none) (λ now report. report.main_power_voltage) (λ now key. refl) (λ key. refl)
            (λ now header report. refl) device_id calls db;
    },
    rows-added (device_schema js) (StarlinkReport js) devices reports
        (service js text_of devices reports) (device_of js text_of devices reports) (read_row js)
        (row_at js text_of devices reports) call_rows calls db,
  )
