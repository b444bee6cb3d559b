-- ===== src/Tracker/Mobileye/Events.antt =====
-- Which ADAS events a report carries.
use avt_tracker.Base.{
  ◌∙◌, some, true, [], refl, ◌==◌, ◌||◌, ◌∷◌, arith, false, ◌&&◌, ◌++◌, List, ℕ, ◌≡◌, Bool,
}
use avt_tracker.Tracker.Mobileye.{
  CanAdvancedInfoPid, reading_from, byte_of, by_pid, CanAdvancedInfoMask1Block,
  derive_mobileye_adas_reading, pedestrian_in_danger_zone, pcw, fcw, lwdr, MobileyeAdasReading,
  event_if, lwdl, MobileyeAdasEventType, derive_mobileye_adas_events,
}

-- The AdvCAN PID of an event.
abbrev pub pid_of : MobileyeAdasEventType → ℕ
pid_of lwdl = 7
pid_of lwdr = 8
pid_of fcw = 6
pid_of pcw = 3
pid_of pedestrian_in_danger_zone = 4

-- Whether an event is in a list.
pub is_reported : MobileyeAdasEventType → List MobileyeAdasEventType → Bool
is_reported event [] = false
is_reported event (e ∷ events) = pid_of e == pid_of event || is_reported event events

is_reported-append :
    (event : MobileyeAdasEventType) (xs ys : List MobileyeAdasEventType)
    → is_reported event (xs ++ ys) ≡ (is_reported event xs || is_reported event ys)
unfolding is_reported
is_reported-append event [] ys = refl
is_reported-append event (x ∷ xs) ys = ground (arith, is_reported-append event xs ys)

is_reported-event_if :
    (event e : MobileyeAdasEventType) (b : Bool)
    → is_reported event (event_if b e) ≡ (b && pid_of e == pid_of event)
unfolding is_reported
is_reported-event_if event e false = refl
is_reported-event_if event e true = ground arith

-- The flag of a reading that an event stands for.
flag_of : MobileyeAdasEventType → MobileyeAdasReading → Bool
flag_of lwdl r = r.left_lane_departure_warning_on
flag_of lwdr r = r.right_lane_departure_warning_on
flag_of fcw r = r.forward_collision_warning_on
flag_of pcw r = r.pedestrian_forward_collision_warning
flag_of pedestrian_in_danger_zone r = r.pedestrian_in_danger_zone

reported_pids :
    (event : MobileyeAdasEventType) (r : MobileyeAdasReading)
    → is_reported event (derive_mobileye_adas_events r) ≡ (
        r.left_lane_departure_warning_on && 7 == pid_of event
        || (r.right_lane_departure_warning_on && 8 == pid_of event
            || (r.forward_collision_warning_on && 6 == pid_of event
                || (r.pedestrian_forward_collision_warning && 3 == pid_of event
                    || r.pedestrian_in_danger_zone && 4 == pid_of event))))
unfolding derive_mobileye_adas_events
reported_pids event r = rw (
  is_reported-append, is_reported-append, is_reported-append, is_reported-append,
  is_reported-event_if, is_reported-event_if, is_reported-event_if, is_reported-event_if,
  is_reported-event_if,
)

flag_reported :
    (event : MobileyeAdasEventType) (r : MobileyeAdasReading)
    → is_reported event (derive_mobileye_adas_events r) ≡ flag_of event r
unfolding flag_of
flag_reported lwdl r = ground (arith, reported_pids lwdl r)
flag_reported lwdr r = ground (arith, reported_pids lwdr r)
flag_reported fcw r = ground (arith, reported_pids fcw r)
flag_reported pcw r = ground (arith, reported_pids pcw r)
flag_reported pedestrian_in_danger_zone r =
    ground (arith, reported_pids pedestrian_in_danger_zone r)

flag_read :
    (event : MobileyeAdasEventType) (pids : List CanAdvancedInfoPid)
    → flag_of event (reading_from pids) ≡ (byte_of (pid_of event) pids == 1)
unfolding flag_of
flag_read lwdl pids = refl
flag_read lwdr pids = refl
flag_read fcw pids = refl
flag_read pcw pids = refl
flag_read pedestrian_in_danger_zone pids = refl

-- From a CAN Advanced block with a nonempty PID 1 an ADAS reading is derived, and an event is
-- reported for it if, and only if, the first byte of the event's PID is 1.
pub is_reported-derive :
    (block : CanAdvancedInfoMask1Block) (b : ℕ) (bytes : List ℕ)
    → by_pid 1 block.pids ≡ some (b ∷ bytes)
    → (r : MobileyeAdasReading) × (derive_mobileye_adas_reading block ≡ some r)
      × ((event : MobileyeAdasEventType)
          → is_reported event (derive_mobileye_adas_events r)
            ≡ (byte_of (pid_of event) block.pids == 1))
unfolding derive_mobileye_adas_reading
is_reported-derive block b bytes h = (
  reading_from block.pids,
  rw (derive_mobileye_adas_reading, h),
  λ event. flag_reported event (reading_from block.pids) ∙ flag_read event block.pids,
)
