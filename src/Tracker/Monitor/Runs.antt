-- ===== src/Tracker/Monitor/Runs.antt =====
-- The device lists with one device of two online.
use avt_tracker.Base.{[], ◌∷◌, List, none, map, ◌≡◌}
use avt_tracker.Base.Dict.Keys.{is_given}
use avt_tracker.Base.Text.{codes}
use avt_tracker.Tracker.DeviceRows.{TrackerDevice, bare_device}
use avt_tracker.Tracker.Monitor.{list_devices, monitor_overview, DeviceEntry, OverviewEntry}
use avt_tracker.Tracker.Monitor.Online.{monitor_overview_lem}
use avt_tracker.Tracker.Registry.{Registry, register}
use avt_tracker.Tracker.Registry.InStep.{started, registered, Reachable-IsInStep}

abbrev known : List TrackerDevice
known = bare_device (codes "35") ∷ bare_device (codes "44") ∷ []

abbrev empty : Registry
empty = record { sockets = []; info = [] }

abbrev one_online : Registry
one_online = register (codes "35") 4 none none 7 empty

monitor_overview_lem_example :
    (map (λ (e : DeviceEntry). e.online) (list_devices known one_online)
      ≡ map (λ (e : OverviewEntry). e.online) (monitor_overview known one_online).devices)
    × (map
          (λ (e : OverviewEntry). is_given e.connected_at)
          (monitor_overview known one_online).devices
        ≡ map (λ (e : OverviewEntry). e.online) (monitor_overview known one_online).devices)
    × (map
          (λ (e : OverviewEntry). is_given e.last_activity_at)
          (monitor_overview known one_online).devices
        ≡ map (λ (e : OverviewEntry). e.online) (monitor_overview known one_online).devices)
monitor_overview_lem_example =
    monitor_overview_lem known one_online
      (Reachable-IsInStep one_online (registered (codes "35") 4 none none 7 empty started))
