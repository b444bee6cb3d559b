-- ===== src/Tracker/Persistence/Snapshot.antt =====
-- What each call of the service does to the two tables.
use avt_tracker.Base.{
  false, sym, List, [], ◌∷◌, ◌++◌, Option, none, some, ◌≡◌, refl, true, append-nil,
}
use avt_tracker.Base.Int.{ℤ}
use avt_tracker.Base.Text.{Text}
use avt_tracker.Storage.{DeviceRepository, ReportRepository}
use avt_tracker.Storage.Columns.{upsert_all}
use avt_tracker.Storage.Histories.{Calls, call_all}
use avt_tracker.Tracker.Ascii.{Doubles}
use avt_tracker.Tracker.Parser.{ParsedTrackerFrame}
use avt_tracker.Tracker.Persistence.{
  save_payload, Database, save_report, mark_device_connected, mark_device_disconnected, report_in,
}
use avt_tracker.Tracker.ReportRows.{TrackerReport, report_patch, report_entity}
use avt_tracker.Tracker.DeviceRows.{DevicePatch, device_schema, bare_patch}
use avt_tracker.Tracker.Report.{TrackerReportPayload}

module _ (js : Doubles) (devices : DeviceRepository device_schema)
    (reports : ReportRepository TrackerReport) where
  -- A call of the service, with the time at which it runs.
  pub data Call : Type 0 where
    connected : ℤ → Text → Call
    disconnected : ℤ → Text → Call
    report_saved : ℤ → ParsedTrackerFrame js → Call

  unfoldable pub call : Call → Database devices reports → Database devices reports
  call (connected now imei) db = mark_device_connected js devices reports now imei db
  call (disconnected now imei) db = mark_device_disconnected js devices reports imei db
  call (report_saved now parsed) db = (save_report js devices reports now parsed db).1

  abbrev pub patch_of : ℤ → ParsedTrackerFrame js → Option TrackerReportPayload → List DevicePatch
  patch_of now parsed none = []
  patch_of now parsed (some report) = report_patch now parsed.header report ∷ []

  abbrev pub rows_of : ParsedTrackerFrame js → Option TrackerReportPayload → List TrackerReport
  rows_of parsed none = []
  rows_of parsed (some report) =
      report_entity parsed.header report parsed.warnings parsed.raw_hex ∷ []

  -- What a call says of its device: one patch, and none for a frame without a report.
  abbrev pub patches_at : Call → List DevicePatch
  patches_at (connected now imei) = record (bare_patch imei true) { last_seen_at = some now } ∷ []
  patches_at (disconnected now imei) = bare_patch imei false ∷ []
  patches_at (report_saved now parsed) = patch_of now parsed (report_in js parsed.content)

  -- The row of a call's report.
  abbrev pub entities_at : Call → List TrackerReport
  entities_at (connected now imei) = []
  entities_at (disconnected now imei) = []
  entities_at (report_saved now parsed) = rows_of parsed (report_in js parsed.content)

  devices-save_payload :
      (now : ℤ) (parsed : ParsedTrackerFrame js) (payload : Option TrackerReportPayload)
      (db : Database devices reports)
      → (save_payload js devices reports now parsed payload db).1.device_table
        ≡ upsert_all device_schema devices (patch_of now parsed payload) db.device_table
  devices-save_payload now parsed none db = refl
  devices-save_payload now parsed (some payload) db = refl

  reports-save_payload :
      (now : ℤ) (parsed : ParsedTrackerFrame js) (payload : Option TrackerReportPayload)
      (db : Database devices reports)
      → reports.rows (save_payload js devices reports now parsed payload db).1.report_table
        ≡ reports.rows db.report_table ++ rows_of parsed payload
  reports-save_payload now parsed none db = sym (append-nil (reports.rows db.report_table))
  reports-save_payload now parsed (some payload) db =
      reports.rows_save (report_entity parsed.header payload parsed.warnings parsed.raw_hex)
        db.report_table

  pub devices-call :
      (c : Call) (db : Database devices reports)
      → (call c db).device_table ≡ upsert_all device_schema devices (patches_at c) db.device_table
  unfolding call mark_device_connected mark_device_disconnected save_report
  devices-call (connected now imei) db = refl
  devices-call (disconnected now imei) db = refl
  devices-call (report_saved now parsed) db =
      devices-save_payload now parsed (report_in js parsed.content) db

  pub reports-call :
      (c : Call) (db : Database devices reports)
      → reports.rows (call c db).report_table ≡ reports.rows db.report_table ++ entities_at c
  unfolding call mark_device_connected mark_device_disconnected save_report
  reports-call (connected now imei) db = sym (append-nil (reports.rows db.report_table))
  reports-call (disconnected now imei) db = sym (append-nil (reports.rows db.report_table))
  reports-call (report_saved now parsed) db =
      reports-save_payload now parsed (report_in js parsed.content) db

  abbrev pub service : Calls devices reports
  service = record {
    Call = Call;
    call = call;
    patches_at = patches_at;
    entities_at = entities_at;
    devices_call = devices-call;
    reports_call = reports-call;
  }

  abbrev pub all_calls : List Call → Database devices reports → Database devices reports
  all_calls calls db = call_all device_schema TrackerReport devices reports service calls db
