-- ===== src/Starlink/Events.antt =====
-- src/starlink/parser/starlink-parser.constants.ts: the names and alarms of event ids.
use avt_tracker.Base.{if◌then◌else◌, ◌+◌, ℕ, List, [], ◌∷◌, ◌++◌, Option, none, some, String}
use avt_tracker.Base.Int.{is_nat, ℤ, pos, negsuc}
use avt_tracker.Base.Text.{Text, codes, decimal}

abbrev pub event_names : List (ℕ × String)
event_names =
    (6, "Overspeed Alarm")
    ∷ (7, "Geofence Enter")
    ∷ (8, "Geofence Exit")
    ∷ (9, "Power Cut")
    ∷ (11, "Low Battery")
    ∷ (24, "Ignition On")
    ∷ (25, "Ignition Off")
    ∷ (26, "Tow Alarm")
    ∷ (36, "SOS Alarm")
    ∷ (42, "Jamming Alarm")
    ∷ []

abbrev pub event_alarms : List (ℕ × String)
event_alarms =
    (6, "overspeed")
    ∷ (7, "geofenceEnter")
    ∷ (8, "geofenceExit")
    ∷ (9, "powerCut")
    ∷ (11, "lowBattery")
    ∷ (26, "tow")
    ∷ (36, "sos")
    ∷ (42, "jamming")
    ∷ []

-- A lookup in such an object, by a number; no key is negative.
lookup_id : ℤ → List (ℕ × String) → Option Text
lookup_id n [] = none
lookup_id n ((k, name) ∷ entries) = if is_nat n k then some (codes name) else lookup_id n entries

-- `${n}`
unfoldable pub signed_decimal : ℤ → Text
signed_decimal (pos n) = decimal n
signed_decimal (negsuc n) = b'-' ∷ decimal (n + 1)

unfoldable pub get_starlink_event_name : ℤ → Text
unfolding lookup_id
get_starlink_event_name event_id = elim (lookup_id event_id event_names) [
  | some name ↦ name
  | none ↦ codes "Unknown Event (" ++ (signed_decimal event_id ++ codes ")")
]

unfoldable pub get_starlink_alarm : ℤ → Option Text
unfolding lookup_id
get_starlink_alarm event_id = lookup_id event_id event_alarms
