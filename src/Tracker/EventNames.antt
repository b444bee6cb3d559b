-- ===== src/Tracker/EventNames.antt =====
-- src/tracker/parser/tracker-parser.constants.ts: the names of event types.
use avt_tracker.Base.{◌==◌, if◌then◌else◌, none, some, Option, ℕ, List, [], ◌∷◌, ◌++◌, String}
use avt_tracker.Base.Text.{decimal, codes, Text}

abbrev pub event_type_names : List (ℕ × String)
event_type_names =
    (0, "Terminal Power Event")
    ∷ (1, "Regular Report Event")
    ∷ (2, "Moving Event")
    ∷ (3, "Battery Alarm Event")
    ∷ (7, "Crash Alarm Event")
    ∷ (11, "Upgrade Firmware Event")
    ∷ (12, "External Temperature Alarm Event")
    ∷ (13, "Ignition Event")
    ∷ (14, "Main Power Alarm Event")
    ∷ (15, "TOW Alarm Event")
    ∷ (16, "Over Speed Alarm Event")
    ∷ (17, "Engine Idle Alarm Event")
    ∷ (18, "Start Stop Alarm Event")
    ∷ (19, "Harsh Behavior Alarm Event")
    ∷ (20, "G-Sensor Self-Calibration Event")
    ∷ (21, "Geo Fence Alarm Event")
    ∷ (22, "Digital Input 1 Event")
    ∷ (23, "ID Authorized Event")
    ∷ (24, "CANBUS Info Event")
    ∷ (25, "Tachograph Common Event")
    ∷ (26, "Tachograph DDD File Upload Event")
    ∷ (27, "Output Alarm Event")
    ∷ (28, "Delta AIS Alarm Event")
    ∷ (29, "PDP Alarm Event")
    ∷ (30, "BLE Common Info Event")
    ∷ (31, "External Humidity Alarm Event")
    ∷ (32, "Jamming Alarm Event")
    ∷ (35, "TLS Certificate File Download Event")
    ∷ (38, "Upgrade Configuration Event")
    ∷ (39, "GNSS Spoofing Alarm Event")
    ∷ (40, "PEO Fence Alarm Event")
    ∷ (41, "PEO Fence Over Speed Alarm Event")
    ∷ (44, "BLE Slave Connect Event")
    ∷ (45, "CANBUS Info Alarm Event")
    ∷ []

find_name : ℕ → List (ℕ × String) → Option String
find_name n [] = none
find_name n ((k, name) ∷ names) = if k == n then some name else find_name n names

unfoldable pub get_event_type_name : ℕ → Text
unfolding find_name
get_event_type_name event_type = elim (find_name event_type event_type_names) [
  | some name ↦ codes name
  | none ↦ codes "Unknown Event Type (" ++ (decimal event_type ++ codes ")")
]
