-- ===== src/Tracker/Persistence/LastKnown.antt =====
-- The "last known state" of a device, and the reports, over any calls of the service.
use avt_tracker.Base.{
  List, ◌++◌, Option, none, some, ◌≡◌, refl, ◌∙◌, true, false, list_eq, if◌then◌else◌, map, ℕ,
  Bool-cases, inl, inr,
}
use avt_tracker.Base.Int.{ℤ, Scaled}
use avt_tracker.Base.Text.{Text}
use avt_tracker.Storage.{DeviceRepository, ReportRepository, Database, given_or}
use avt_tracker.Storage.Columns.{Column, last_given, values_for, column_in}
use avt_tracker.Storage.Latest.{added, given_by_patch, column-latest, rows-added}
use avt_tracker.Tracker.Ascii.{Doubles}
use avt_tracker.Tracker.Blocks.Gnss.{GnssBlock, GnssFix}
use avt_tracker.Tracker.DeviceRows.{
  patch_device, bare_device, TrackerDevice, DevicePatch, device_schema, bare_patch,
}
use avt_tracker.Tracker.Header.{TrackerFrameHeader}
use avt_tracker.Tracker.Kinds.{TrackerFrameKind}
use avt_tracker.Tracker.Parser.{ParsedTrackerFrame, report_in}
use avt_tracker.Tracker.Persistence.{find_device}
use avt_tracker.Tracker.Persistence.Snapshot.{
  Call, connected, disconnected, report_saved, patches_at, entities_at, patch_of, rows_of, service,
  all_calls,
}
use avt_tracker.Tracker.Persistence.Tellings.{
  of_fix, of_battery, in_device, Telling, generated_or_now, read_row, device_of, told, says,
  row_told, row_at, Holds, IsLastKnown,
}
use avt_tracker.Tracker.Report.{TrackerReportPayload, BatteryBlock}
use avt_tracker.Tracker.ReportRows.{primary_fix, field_of, or_now, TrackerReport, report_patch}

of_fix_lem :
    {A : Type 0} (value : GnssFix → Option A) (report : TrackerReportPayload)
    → field_of value (primary_fix report) ≡ of_fix value report.gnss
of_fix_lem value report = by_gnss value report.gnss
  where
    by_fix :
        {A : Type 0} (value : GnssFix → Option A) (fix : Option GnssFix)
        → field_of value fix ≡ elim fix [ none ↦ none | some fix ↦ value fix ]
    by_fix value none = refl
    by_fix value (some fix) = refl

    by_gnss :
        {A : Type 0} (value : GnssFix → Option A) (gnss : Option GnssBlock)
        → field_of value (field_of (λ (g : GnssBlock). g.primary) gnss) ≡ of_fix value gnss
    by_gnss value none = refl
    by_gnss value (some gnss) = by_fix value gnss.primary

of_battery_lem :
    (value : BatteryBlock → ℕ) (battery : Option BatteryBlock)
    → field_of (λ (b : BatteryBlock). some (value b)) battery ≡ of_battery value battery
of_battery_lem value none = refl
of_battery_lem value (some battery) = refl

generated_lem :
    (now : ℤ) (generated_at : Option ℤ)
    → some (or_now generated_at now) ≡ elim generated_at [ none ↦ some now | some time ↦ some time ]
generated_lem now none = refl
generated_lem now (some time) = refl

-- A nullable column of `tracker_device`.
abbrev column :
    {A : Type 0} (in_row : TrackerDevice → Option A) (in_patch : DevicePatch → Option A)
    → ((imei : Text) → in_row (bare_device imei) ≡ none)
    → ((patch : DevicePatch) (row : TrackerDevice)
        → in_row (patch_device patch row) ≡ given_or (in_patch patch) (in_row row))
    → Column device_schema
column {A = A} in_row in_patch null_first set_or_kept = record {
  Value = A;
  in_row = in_row;
  in_patch = in_patch;
  null_first = null_first;
  set_or_kept = set_or_kept;
}

module _ (js : Doubles) (devices : DeviceRepository device_schema)
    (reports : ReportRepository TrackerReport) where
  -- One column, where the patches of the service say the same.
  module _ (c : Column device_schema) (at_connection : ℤ → Option c.Value)
      (telling : Telling c.Value)
      (on_connection : (now : ℤ) (imei : Text)
        → c.in_patch (record (bare_patch imei true) { last_seen_at = some now })
          ≡ at_connection now)
      (on_close : (imei : Text) → c.in_patch (bare_patch imei false) ≡ none)
      (on_report : (now : ℤ) (header : TrackerFrameHeader) (report : TrackerReportPayload)
        → c.in_patch (report_patch now header report) ≡ telling now header report)
      (imei : Text) where
    report_says :
        (now : ℤ) (parsed : ParsedTrackerFrame js) (payload : Option TrackerReportPayload)
        → last_given
            (values_for device_schema c imei (patch_of js devices reports now parsed payload))
          ≡ (if list_eq parsed.header.imei imei
              then told js devices reports telling now parsed.header payload
              else none)
    report_says now parsed none = elim (Bool-cases (list_eq parsed.header.imei imei)) [
      | inl same ↦ rw same refl
      | inr other ↦ rw other refl
    ]
    report_says now parsed (some report) =
        given_by_patch device_schema c imei (report_patch now parsed.header report)
        ∙ rw (on_report now parsed.header report) refl

    call_says :
        (call : Call js devices reports)
        → last_given (values_for device_schema c imei (patches_at js devices reports call)) ≡ (
            if list_eq (device_of js devices reports call) imei
            then says js devices reports at_connection telling call
            else none)
    call_says (connected now other) =
        given_by_patch device_schema c imei
          (record (bare_patch other true) { last_seen_at = some now })
        ∙ rw (on_connection now other) refl
    call_says (disconnected now other) =
        given_by_patch device_schema c imei (bare_patch other false) ∙ rw (on_close other) refl
    call_says (report_saved now parsed) = report_says now parsed (report_in js parsed.content)

    same_column :
        (row : Option TrackerDevice)
        → column_in device_schema devices c row ≡ in_device c.in_row row
    same_column none = refl
    same_column (some row) = refl

    column-Holds :
        (calls : List (Call js devices reports)) (db : Database devices reports)
        → Holds js devices reports imei calls db c.in_row at_connection telling
    unfolding find_device
    column-Holds calls db = rw (← same_column) (
        column-latest device_schema TrackerReport devices reports (service js devices reports)
          (device_of js devices reports) c (says js devices reports at_connection telling) imei
          call_says calls db)

  rows_say :
      (parsed : ParsedTrackerFrame js) (payload : Option TrackerReportPayload)
      → map read_row (rows_of js devices reports parsed payload)
        ≡ row_told js devices reports parsed payload
  rows_say parsed none = refl
  rows_say parsed (some report) =
      rw
        (
          ← of_fix_lem (λ (fix : GnssFix). fix.latitude) report,
          ← of_fix_lem (λ (fix : GnssFix). fix.longitude) report,
          ← of_fix_lem (λ (fix : GnssFix). fix.altitude_m) report,
          ← of_fix_lem (λ (fix : GnssFix). fix.speed_kmh) report,
          ← of_battery_lem (λ (battery : BatteryBlock). battery.voltage_mv) report.battery,
          ← of_battery_lem (λ (battery : BatteryBlock). battery.level_percent) report.battery,
        )
        refl

  call_rows :
      (call : Call js devices reports)
      → map read_row (entities_at js devices reports call) ≡ row_at js devices reports call
  call_rows (connected now imei) = refl
  call_rows (disconnected now imei) = refl
  call_rows (report_saved now parsed) = rows_say parsed (report_in js parsed.content)

  -- After any calls of the service, in any order and for any devices, a device's row holds, in each
  -- of twelve columns, what the last of the device's calls that says something of it says: a
  -- connection and a report say when the device was seen, a report says when it was generated (or
  -- the time of the call), its frame's kind, its event and the event's name, the position, the
  -- altitude and the speed of its first fix, the level and the voltage of its battery, and its
  -- network, as far as it has them; a close and a frame without a report say nothing. Where no call
  -- says anything the value from before stays. The table of reports has one more row for each
  -- report, in order, with the report's device, event, time, position, altitude, speed, battery,
  -- payload and bytes.
  pub all_calls-IsLastKnown :
      (imei : Text) (calls : List (Call js devices reports)) (db : Database devices reports)
      → IsLastKnown js devices reports imei calls db
        × (map read_row (reports.rows (all_calls js devices reports calls db).report_table)
            ≡ map read_row (reports.rows db.report_table)
              ++ added (row_at js devices reports) calls)
  all_calls-IsLastKnown imei calls db = (
    record {
      seen =
          column-Holds
            (column {A = ℤ} (λ row. row.last_seen_at) (λ patch. patch.last_seen_at) (λ key. refl)
              (λ patch row. refl))
            (λ now. some now) (λ now header report. some now) (λ now key. refl) (λ key. refl)
            (λ now header report. refl) imei calls db;
      reported =
          column-Holds
            (column {A = ℤ} (λ row. row.last_report_at) (λ patch. patch.last_report_at)
              (λ key. refl) (λ patch row. refl))
            (λ now. none) generated_or_now (λ now key. refl) (λ key. refl)
            (λ now header report. generated_lem now header.generated_at) imei calls db;
      frame_kind =
          column-Holds
            (column {A = TrackerFrameKind} (λ row. row.last_frame_kind)
              (λ patch. patch.last_frame_kind) (λ key. refl) (λ patch row. refl))
            (λ now. none) (λ now header report. some header.kind) (λ now key. refl) (λ key. refl)
            (λ now header report. refl) imei calls db;
      event_type =
          column-Holds
            (column {A = ℕ} (λ row. row.last_event_type) (λ patch. patch.last_event_type)
              (λ key. refl) (λ patch row. refl))
            (λ now. none) (λ now header report. some report.event_type) (λ now key. refl)
            (λ key. refl) (λ now header report. refl) imei calls db;
      event_name =
          column-Holds
            (column {A = Text} (λ row. row.last_event_name) (λ patch. patch.last_event_name)
              (λ key. refl) (λ patch row. refl))
            (λ now. none) (λ now header report. some report.event_name) (λ now key. refl)
            (λ key. refl) (λ now header report. refl) imei calls db;
      latitude =
          column-Holds
            (column {A = Scaled} (λ row. row.last_latitude) (λ patch. patch.last_latitude)
              (λ key. refl) (λ patch row. refl))
            (λ now. none) (λ now header report. of_fix (λ fix. fix.latitude) report.gnss)
            (λ now key. refl) (λ key. refl)
            (λ now header report. of_fix_lem (λ fix. fix.latitude) report) imei calls db;
      longitude =
          column-Holds
            (column {A = Scaled} (λ row. row.last_longitude) (λ patch. patch.last_longitude)
              (λ key. refl) (λ patch row. refl))
            (λ now. none) (λ now header report. of_fix (λ fix. fix.longitude) report.gnss)
            (λ now key. refl) (λ key. refl)
            (λ now header report. of_fix_lem (λ fix. fix.longitude) report) imei calls db;
      altitude =
          column-Holds
            (column {A = ℤ} (λ row. row.last_altitude_m) (λ patch. patch.last_altitude_m)
              (λ key. refl) (λ patch row. refl))
            (λ now. none) (λ now header report. of_fix (λ fix. fix.altitude_m) report.gnss)
            (λ now key. refl) (λ key. refl)
            (λ now header report. of_fix_lem (λ fix. fix.altitude_m) report) imei calls db;
      speed =
          column-Holds
            (column {A = ℕ} (λ row. row.last_speed_kmh) (λ patch. patch.last_speed_kmh)
              (λ key. refl) (λ patch row. refl))
            (λ now. none) (λ now header report. of_fix (λ fix. fix.speed_kmh) report.gnss)
            (λ now key. refl) (λ key. refl)
            (λ now header report. of_fix_lem (λ fix. fix.speed_kmh) report) imei calls db;
      battery_level =
          column-Holds
            (column {A = ℕ} (λ row. row.last_battery_level_percent)
              (λ patch. patch.last_battery_level_percent) (λ key. refl) (λ patch row. refl))
            (λ now. none)
            (λ now header report. of_battery (λ battery. battery.level_percent) report.battery)
            (λ now key. refl) (λ key. refl)
            (λ now header report. of_battery_lem (λ battery. battery.level_percent) report.battery)
            imei calls db;
      battery_voltage =
          column-Holds
            (column {A = ℕ} (λ row. row.last_battery_voltage_mv)
              (λ patch. patch.last_battery_voltage_mv) (λ key. refl) (λ patch row. refl))
            (λ now. none)
            (λ now header report. of_battery (λ battery. battery.voltage_mv) report.battery)
            (λ now key. refl) (λ key. refl)
            (λ now header report. of_battery_lem (λ battery. battery.voltage_mv) report.battery)
            imei calls db;
      network_type =
          column-Holds
            (column {A = ℕ} (λ row. row.last_network_type) (λ patch. patch.last_network_type)
              (λ key. refl) (λ patch row. refl))
            (λ now. none) (λ now header report. report.network_type) (λ now key. refl) (λ key. refl)
            (λ now header report. refl) imei calls db;
    },
    rows-added device_schema TrackerReport devices reports (service js devices reports)
        (device_of js devices reports) read_row (row_at js devices reports) call_rows calls db,
  )
