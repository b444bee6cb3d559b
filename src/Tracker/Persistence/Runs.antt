-- ===== src/Tracker/Persistence/Runs.antt =====
-- The tracker's persistence over lists: a device that connects, reports and leaves.
use avt_tracker.Base.{map, some, List, [], ◌∷◌, ◌++◌, ◌≡◌, refl}
use avt_tracker.Base.Int.{pos}
use avt_tracker.Base.Text.{codes}
use avt_tracker.Storage.{DeviceRepository, ReportRepository}
use avt_tracker.Storage.InMemory.{device_map, report_list}
use avt_tracker.Storage.Latest.{added}
use avt_tracker.Tracker.DeviceRows.{device_schema}
use avt_tracker.Tracker.Parser.{ParsedTrackerFrame, report}
use avt_tracker.Tracker.Parser.RoundTrip.{header_of_options}
use avt_tracker.Tracker.Parser.Runs.{naturals, heartbeat}
use avt_tracker.Tracker.Persistence.{Database}
use avt_tracker.Tracker.Persistence.LastKnown.{all_calls-IsLastKnown}
use avt_tracker.Tracker.Persistence.Snapshot.{
  Call, connected, disconnected, report_saved, all_calls,
}
use avt_tracker.Tracker.Persistence.Tellings.{IsLastKnown, read_row, row_at}
use avt_tracker.Tracker.Report.{empty_payload}
use avt_tracker.Tracker.ReportRows.{TrackerReport, format_hex_mask}

abbrev devices : DeviceRepository device_schema
devices = device_map device_schema

abbrev reports : ReportRepository TrackerReport
reports = report_list TrackerReport

abbrev nothing_yet : Database devices reports
nothing_yet = record { device_table = []; report_table = [] }

-- A report with a battery and a network, but without a position.
abbrev first_report : ParsedTrackerFrame naturals
first_report = record {
  header = header_of_options heartbeat;
  content = report (record (empty_payload (codes "1.1") 0 0 6) {
    network_type = some 4;
    battery = some (record { voltage_mv = 3900; level_percent = 80 });
  });
  warnings = [];
  raw_hex = codes "2b";
  data_zone_hex = [];
}

abbrev visit : List (Call naturals devices reports)
visit =
    connected (pos 7) heartbeat.imei
    ∷ report_saved (pos 8) first_report
    ∷ disconnected (pos 9) heartbeat.imei
    ∷ []

all_calls-IsLastKnown_example :
    IsLastKnown naturals devices reports heartbeat.imei visit nothing_yet
    × (map read_row (all_calls naturals devices reports visit nothing_yet).report_table
        ≡ [] ++ added (row_at naturals devices reports) visit)
all_calls-IsLastKnown_example =
    all_calls-IsLastKnown naturals devices reports heartbeat.imei visit nothing_yet

masks : format_hex_mask 0x1f0a ≡ codes "0x00001F0A"
unfolding format_hex_mask
masks = refl
