-- ===== src/Tracker/Persistence.antt =====
-- src/tracker/persistence/tracker-persistence.service.ts and the rows that it writes
-- (src/tracker/entities/). The two repositories are parameters. A statement that the database
-- refuses is the failure that the TCP server sees of a save, and changes nothing here.
pub mod Snapshot
pub mod Tellings
pub mod LastKnown
pub mod Runs
use avt_tracker.Base.{
  ℕ, List, [], ◌∷◌, ◌++◌, Option, none, some, Bool, true, false, if◌then◌else◌, length, ltb, ◌-◌,
  ◌/◌, ◌%◌, zero, suc, ◌+◌,
}
use avt_tracker.Base.Int.{ℤ, Scaled}
use avt_tracker.Base.Text.{Text, codes, hex_digit, decimal}
use avt_tracker.Storage.{Database, ReportRepository, Schema, DeviceRepository, given_or}
use avt_tracker.Tracker.Ascii.{Doubles}
use avt_tracker.Tracker.Blocks.EventData.{EventDataBlock}
use avt_tracker.Tracker.Blocks.Gnss.{GnssFix, GnssBlock, Satellites}
use avt_tracker.Tracker.Errors.{Warning}
use avt_tracker.Tracker.Header.{TrackerFrameHeader}
use avt_tracker.Tracker.Kinds.{TrackerFrameKind}
use avt_tracker.Tracker.Parser.{report_in, ParsedTrackerFrame, Content}
use avt_tracker.Tracker.Report.{TrackerReportPayload, BatteryBlock, CellBlock}
use avt_tracker.Tracker.DeviceRows.{TrackerDevice, DevicePatch, device_schema, bare_patch}
use avt_tracker.Tracker.ReportRows.{TrackerReport, report_entity, report_patch}

module _ (js : Doubles) (devices : DeviceRepository device_schema)
    (reports : ReportRepository TrackerReport) where
  -- `upsertDevice`
  abbrev pub upsert_device : DevicePatch → Database devices reports → Database devices reports
  upsert_device patch db = record db { device_table = devices.upsert patch db.device_table }

  unfoldable pub mark_device_connected :
      ℤ → Text → Database devices reports → Database devices reports
  mark_device_connected now imei db =
      upsert_device (record (bare_patch imei true) { last_seen_at = some now }) db

  unfoldable pub mark_device_disconnected :
      Text → Database devices reports → Database devices reports
  mark_device_disconnected imei db = upsert_device (bare_patch imei false) db

  abbrev pub save_entity :
      TrackerReport → Database devices reports → Option reports.Saved × Database devices reports
  save_entity entity db =
      let (saved, table) = reports.save entity db.report_table in
      (some saved, record db { report_table = table })

  abbrev pub save_payload :
      ℤ
      → ParsedTrackerFrame js
      → Option TrackerReportPayload
      → Database devices reports
      → Option reports.Saved × Database devices reports
  save_payload now parsed none db = (none, db)
  save_payload now parsed (some report) db =
      save_entity (report_entity parsed.header report parsed.warnings parsed.raw_hex)
        (upsert_device (report_patch now parsed.header report) db)

  unfoldable pub save_report :
      ℤ
      → ParsedTrackerFrame js
      → Database devices reports
      → Option reports.Saved × Database devices reports
  save_report now parsed db = save_payload now parsed (report_in js parsed.content) db

  unfoldable pub find_device : Text → Database devices reports → Option TrackerDevice
  find_device imei db = devices.find_one_by imei db.device_table
