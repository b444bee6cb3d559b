-- ===== src/Tracker/Mobileye/Runs.antt =====
-- A block with PIDs 1 and 6, the headway and the forward collision warning.
use avt_tracker.Base.{◌≡◌, ◌==◌, [], ◌∷◌, some, refl}
use avt_tracker.Tracker.Blocks.CanAdvanced.{CanAdvancedInfoMask1Block}
use avt_tracker.Tracker.Mobileye.{
  byte_of, derive_mobileye_adas_events, MobileyeAdasEventType, derive_mobileye_adas_reading,
  MobileyeAdasReading, by_pid,
}
use avt_tracker.Tracker.Mobileye.Events.{is_reported-derive, pid_of, is_reported}

abbrev warned : CanAdvancedInfoMask1Block
warned = record {
  mask = 33;
  pids = (record { pid = 1; bytes = 1 ∷ [] }) ∷ (record { pid = 6; bytes = 1 ∷ [] }) ∷ [];
}

pid_one : by_pid 1 warned.pids ≡ some (1 ∷ [])
unfolding by_pid
pid_one = refl

is_reported-derive_example :
    (r : MobileyeAdasReading) × (derive_mobileye_adas_reading warned ≡ some r)
    × ((event : MobileyeAdasEventType)
        → is_reported event (derive_mobileye_adas_events r)
          ≡ (byte_of (pid_of event) warned.pids == 1))
is_reported-derive_example = is_reported-derive warned 1 [] pid_one
