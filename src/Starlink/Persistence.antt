-- ===== src/Starlink/Persistence.antt =====
-- src/starlink/persistence/starlink-persistence.service.ts and the rows that it writes
-- (src/starlink/entities/). The two repositories are parameters. A statement that the database
-- refuses is the failure that the TCP server sees of a save, and changes nothing here.
pub mod Snapshot
pub mod Tellings
pub mod LastKnown
pub mod Runs
use avt_tracker.Base.{ℕ, List, [], ◌∷◌, Option, none, some, Bool, true, false}
use avt_tracker.Base.Int.{ℤ}
use avt_tracker.Base.Text.{Text}
use avt_tracker.Storage.{Schema, DeviceRepository, ReportRepository, Database, given_or}
use avt_tracker.Starlink.Codec.{Floats}
use avt_tracker.Starlink.Payload.{
  ParsedStarlinkFrame, StarlinkFrameHeader, StarlinkReportPayload, StarlinkWarning,
}
use avt_tracker.Starlink.DeviceRows.{
  StarlinkDevice, DevicePatch, device_schema, bare_patch, report_patch,
}
use avt_tracker.Starlink.ReportRows.{StarlinkReport, report_entity}

module _ (js : Floats) (text_of : js.Num → Text) (devices : DeviceRepository (device_schema js))
    (reports : ReportRepository (StarlinkReport js)) where
  -- `upsertDevice`
  abbrev pub upsert_device : DevicePatch js → Database devices reports → Database devices reports
  upsert_device patch db = record db { device_table = devices.upsert patch db.device_table }

  unfoldable pub mark_device_connected :
      ℤ → Text → Database devices reports → Database devices reports
  mark_device_connected now device_id db =
      upsert_device (record (bare_patch js device_id true) { last_seen_at = some now }) db

  unfoldable pub mark_device_disconnected :
      Text → Database devices reports → Database devices reports
  mark_device_disconnected device_id db = upsert_device (bare_patch js device_id false) db

  abbrev pub save_entity :
      StarlinkReport js → Database devices reports → Option reports.Saved × Database devices reports
  save_entity entity db =
      let (saved, table) = reports.save entity db.report_table in
      (some saved, record db { report_table = table })

  abbrev pub save_payload :
      ℤ
      → ParsedStarlinkFrame js
      → Option (StarlinkReportPayload js)
      → Database devices reports
      → Option reports.Saved × Database devices reports
  save_payload now parsed none db = (none, db)
  save_payload now parsed (some report) db =
      save_entity (report_entity js text_of parsed report)
        (upsert_device (report_patch js now parsed.header report) db)

  unfoldable pub save_report :
      ℤ
      → ParsedStarlinkFrame js
      → Database devices reports
      → Option reports.Saved × Database devices reports
  save_report now parsed db = save_payload now parsed parsed.report db

  unfoldable pub find_device : Text → Database devices reports → Option (StarlinkDevice js)
  find_device device_id db = devices.find_one_by device_id db.device_table
