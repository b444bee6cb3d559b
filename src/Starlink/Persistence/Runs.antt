-- ===== src/Starlink/Persistence/Runs.antt =====
-- The StarLink persistence over lists: a unit that connects, reports its ignition and leaves.
use avt_tracker.Base.{map, List, [], ◌∷◌, ◌++◌, ◌≡◌}
use avt_tracker.Base.Int.{pos}
use avt_tracker.Base.Text.{codes, decimal}
use avt_tracker.Starlink.DeviceRows.{device_schema}
use avt_tracker.Starlink.Parser.Lines.{expected_frame}
use avt_tracker.Starlink.Parser.Runs.{whole_numbers, event, two_tags}
use avt_tracker.Starlink.Persistence.LastKnown.{all_calls-IsLastKnownUnit}
use avt_tracker.Starlink.Persistence.Snapshot.{
  Call, connected, disconnected, report_saved, all_calls,
}
use avt_tracker.Starlink.Persistence.Tellings.{IsLastKnown, read_row, row_at}
use avt_tracker.Starlink.ReportRows.{StarlinkReport}
use avt_tracker.Storage.{Database, DeviceRepository, ReportRepository}
use avt_tracker.Storage.InMemory.{device_map, report_list}
use avt_tracker.Storage.Latest.{added}

abbrev devices : DeviceRepository (device_schema whole_numbers)
devices = device_map (device_schema whole_numbers)

abbrev reports : ReportRepository (StarlinkReport whole_numbers)
reports = report_list (StarlinkReport whole_numbers)

abbrev nothing_yet : Database devices reports
nothing_yet = record { device_table = []; report_table = [] }

abbrev visit : List (Call whole_numbers decimal devices reports)
visit =
    connected (pos 7) (codes "0A1B2C")
    ∷ report_saved (pos 8) (expected_frame whole_numbers event two_tags)
    ∷ disconnected (pos 9) (codes "0A1B2C")
    ∷ []

all_calls-IsLastKnownUnit_example :
    IsLastKnown whole_numbers decimal devices reports (codes "0A1B2C") visit nothing_yet
    × (map
          (read_row whole_numbers)
          (all_calls whole_numbers decimal devices reports visit nothing_yet).report_table
        ≡ [] ++ added (row_at whole_numbers decimal devices reports) visit)
all_calls-IsLastKnownUnit_example =
    all_calls-IsLastKnownUnit whole_numbers decimal devices reports (codes "0A1B2C") visit
      nothing_yet
