-- ===== src/Tracker/Connections.antt =====
-- Which connection stands for which device: `registerDevice` and the `close` handler of
-- `handleConnection`, src/tracker/tcp/tracker-tcp-server.service.ts. What goes out to the
-- persistence service and the event emitter is a list of announcements.
pub mod Lifecycle
pub mod Runs
use avt_tracker.Base.{
  if◌then◌else◌, ℕ, List, [], ◌∷◌, ◌++◌, Option, none, some, Bool, true, false, list_eq,
}
use avt_tracker.Base.Text.{Text}
use avt_tracker.Tracker.Registry.{register, touch, Registry, unregister}

pub data Announcement : Type 0 where
  mark_device_connected : Text → Announcement
  device_connected : Text → Option Text → Option ℕ → Announcement
  mark_device_disconnected : Text → Announcement
  device_disconnected : Text → Option Text → Option ℕ → Announcement

pub record Service : Type 0 where
  pub registry : Registry
  pub announced : List Announcement

-- The variables that the handlers of one socket share.
pub record Connection : Type 0 where
  pub socket : ℕ
  pub remote_address : Option Text
  pub remote_port : Option ℕ
  pub imei : Option Text

-- `imei === resolvedImei`
unfoldable pub is_known_as : Option Text → Text → Bool
is_known_as none resolved = false
is_known_as (some imei) resolved = list_eq imei resolved

unfoldable pub register_device : Connection → Text → ℕ → Service → Connection × Service
register_device c resolved now s =
    if is_known_as c.imei resolved
    then (c, record s { registry = touch resolved now s.registry })
    else (
      record c { imei = some resolved },
      record {
        registry = register resolved c.socket c.remote_address c.remote_port now s.registry;
        announced =
            s.announced
            ++ (mark_device_connected resolved
                ∷ device_connected resolved c.remote_address c.remote_port
                ∷ []);
      },
    )

-- A device that is not known yet, or an empty text, is not `imei`.
unfoldable pub closed : Connection → Service → Service
closed c s = elim c.imei [
  | none ↦ s
  | some [] ↦ s
  | some (d ∷ ds) ↦ record {
    registry = unregister (d ∷ ds) s.registry;
    announced =
        s.announced
        ++ (mark_device_disconnected (d ∷ ds)
            ∷ device_disconnected (d ∷ ds) c.remote_address c.remote_port
            ∷ []);
  }
]
