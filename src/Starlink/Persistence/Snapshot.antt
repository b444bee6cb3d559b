-- ===== src/Starlink/Persistence/Snapshot.antt =====
-- What each call of the service does to the two tables.
use avt_tracker.Base.{append-nil, false, none, sym, ◌∷◌, [], refl, some, true, ◌++◌, ◌≡◌}
use avt_tracker.Starlink.Codec.{Floats}
use avt_tracker.Starlink.Payload.{ParsedStarlinkFrame, StarlinkReportPayload}
use avt_tracker.Starlink.Persistence.{
  List, Option, ℤ, Text, save_report, save_payload, mark_device_connected, mark_device_disconnected,
}
use avt_tracker.Starlink.ReportRows.{StarlinkReport, report_entity}
use avt_tracker.Starlink.DeviceRows.{DevicePatch, device_schema, report_patch, bare_patch}
use avt_tracker.Storage.{DeviceRepository, ReportRepository, Database}
use avt_tracker.Storage.Columns.{upsert_all}
use avt_tracker.Storage.Histories.{Calls, call_all}

module _ (js : Floats) (text_of : js.Num → Text) (devices : DeviceRepository (device_schema js))
    (reports : ReportRepository (StarlinkReport js)) where
  -- A call of the service, with the time at which it runs.
  pub data Call : Type 0 where
    connected : ℤ → Text → Call
    disconnected : ℤ → Text → Call
    report_saved : ℤ → ParsedStarlinkFrame js → Call

  unfoldable pub call : Call → Database devices reports → Database devices reports
  call (connected now device_id) db =
      mark_device_connected js text_of devices reports now device_id db
  call (disconnected now device_id) db =
      mark_device_disconnected js text_of devices reports device_id db
  call (report_saved now parsed) db = (save_report js text_of devices reports now parsed db).1

  abbrev pub patch_of :
      ℤ → ParsedStarlinkFrame js → Option (StarlinkReportPayload js) → List (DevicePatch js)
  patch_of now parsed none = []
  patch_of now parsed (some report) = report_patch js now parsed.header report ∷ []

  abbrev pub rows_of :
      ParsedStarlinkFrame js → Option (StarlinkReportPayload js) → List (StarlinkReport js)
  rows_of parsed none = []
  rows_of parsed (some report) = report_entity js text_of parsed report ∷ []

  -- What a call says of its device: one patch, and none for a frame without a report.
  abbrev pub patches_at : Call → List (DevicePatch js)
  patches_at (connected now device_id) =
      record (bare_patch js device_id true) { last_seen_at = some now } ∷ []
  patches_at (disconnected now device_id) = bare_patch js device_id false ∷ []
  patches_at (report_saved now parsed) = patch_of now parsed parsed.report

  -- The row of a call's report.
  abbrev pub entities_at : Call → List (StarlinkReport js)
  entities_at (connected now device_id) = []
  entities_at (disconnected now device_id) = []
  entities_at (report_saved now parsed) = rows_of parsed parsed.report

  devices-save_payload :
      (now : ℤ) (parsed : ParsedStarlinkFrame js) (payload : Option (StarlinkReportPayload js))
      (db : Database devices reports)
      → (save_payload js text_of devices reports now parsed payload db).1.device_table
        ≡ upsert_all (device_schema js) devices (patch_of now parsed payload) db.device_table
  devices-save_payload now parsed none db = refl
  devices-save_payload now parsed (some payload) db = refl

  reports-save_payload :
      (now : ℤ) (parsed : ParsedStarlinkFrame js) (payload : Option (StarlinkReportPayload js))
      (db : Database devices reports)
      → reports.rows (save_payload js text_of devices reports now parsed payload db).1.report_table
        ≡ reports.rows db.report_table ++ rows_of parsed payload
  reports-save_payload now parsed none db = sym (append-nil (reports.rows db.report_table))
  reports-save_payload now parsed (some payload) db =
      reports.rows_save (report_entity js text_of parsed payload) db.report_table

  pub devices-call :
      (c : Call) (db : Database devices reports)
      → (call c db).device_table
        ≡ upsert_all (device_schema js) devices (patches_at c) db.device_table
  unfolding call mark_device_connected mark_device_disconnected save_report
  devices-call (connected now device_id) db = refl
  devices-call (disconnected now device_id) db = refl
  devices-call (report_saved now parsed) db = devices-save_payload now parsed parsed.report db

  pub reports-call :
      (c : Call) (db : Database devices reports)
      → reports.rows (call c db).report_table ≡ reports.rows db.report_table ++ entities_at c
  unfolding call mark_device_connected mark_device_disconnected save_report
  reports-call (connected now device_id) db = sym (append-nil (reports.rows db.report_table))
  reports-call (disconnected now device_id) db = sym (append-nil (reports.rows db.report_table))
  reports-call (report_saved now parsed) db = reports-save_payload now parsed parsed.report db

  abbrev pub service : Calls devices reports
  service = record {
    Call = Call;
    call = call;
    patches_at = patches_at;
    entities_at = entities_at;
    devices_call = devices-call;
    reports_call = reports-call;
  }

  abbrev pub all_calls : List Call → Database devices reports → Database devices reports
  all_calls calls db =
      call_all (device_schema js) (StarlinkReport js) devices reports service calls db
