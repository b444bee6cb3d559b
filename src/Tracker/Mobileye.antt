-- ===== src/Tracker/Mobileye.antt =====
-- src/tracker/parser/mobileye-adas.types.ts, and `deriveMobileyeAdasReading` of the parser: what
-- AdvCAN PIDs 1 to 8 say.
pub mod Events
pub mod Runs
use avt_tracker.Base.{get_or, ◌==◌, if◌then◌else◌, ℕ, List, [], ◌∷◌, ◌++◌, Bool, Option, none, some}
use avt_tracker.Base.Int.{Scaled}
use avt_tracker.Tracker.Blocks.CanAdvanced.{CanAdvancedInfoMask1Block, CanAdvancedInfoPid}
use avt_tracker.Tracker.Blocks.Shared.{scaled}

pub record MobileyeAdasReading : Type 0 where
  pub headway_valid : Bool
  pub headway_measurement_seconds : Scaled
  pub pedestrian_forward_collision_warning : Bool
  pub pedestrian_in_danger_zone : Bool
  pub lane_departure_warning_off : Bool
  pub forward_collision_warning_on : Bool
  pub left_lane_departure_warning_on : Bool
  pub right_lane_departure_warning_on : Bool

pub data MobileyeAdasEventType : Type 0 where
  lwdl lwdr fcw pcw pedestrian_in_danger_zone : MobileyeAdasEventType

abbrev event_if : Bool → MobileyeAdasEventType → List MobileyeAdasEventType
event_if b event = if b then event ∷ [] else []

unfoldable pub derive_mobileye_adas_events : MobileyeAdasReading → List MobileyeAdasEventType
derive_mobileye_adas_events reading =
    event_if reading.left_lane_departure_warning_on lwdl
    ++ (event_if reading.right_lane_departure_warning_on lwdr
        ++ (event_if reading.forward_collision_warning_on fcw
            ++ (event_if reading.pedestrian_forward_collision_warning pcw
                ++ event_if reading.pedestrian_in_danger_zone
                    MobileyeAdasEventType.pedestrian_in_danger_zone)))

-- `byPid.get(pid)`; a Map keeps the last value set for a key.
unfoldable pub by_pid : ℕ → List CanAdvancedInfoPid → Option (List ℕ)
by_pid pid [] = none
by_pid pid (entry ∷ entries) = elim (by_pid pid entries) [
  | some bytes ↦ some bytes
  | none ↦ if entry.pid == pid then some entry.bytes else none
]

-- `byPid.get(pid)?.[0] ?? 0`
unfoldable pub byte_of : ℕ → List CanAdvancedInfoPid → ℕ
byte_of pid entries = elim (by_pid pid entries) [ none ↦ 0 | some bytes ↦ get_or bytes 0 0 ]

-- The reading that is returned once PID 1 is known to be there.
abbrev pub reading_from : List CanAdvancedInfoPid → MobileyeAdasReading
reading_from pids = record {
  headway_valid = byte_of 1 pids == 1;
  headway_measurement_seconds = scaled (byte_of 2 pids) 1 10;
  pedestrian_forward_collision_warning = byte_of 3 pids == 1;
  pedestrian_in_danger_zone = byte_of 4 pids == 1;
  lane_departure_warning_off = byte_of 5 pids == 1;
  forward_collision_warning_on = byte_of 6 pids == 1;
  left_lane_departure_warning_on = byte_of 7 pids == 1;
  right_lane_departure_warning_on = byte_of 8 pids == 1;
}

unfoldable pub derive_mobileye_adas_reading : CanAdvancedInfoMask1Block → Option MobileyeAdasReading
derive_mobileye_adas_reading block = elim (by_pid 1 block.pids) [
  | none ↦ none
  | some [] ↦ none
  | some (b ∷ bytes) ↦ some (reading_from block.pids)
]
