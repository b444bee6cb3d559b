-- ===== src/Tracker/Monitor/Online.antt =====
-- What the two device lists say of who is online.
use avt_tracker.Base.{ap₂, ℕ, List, [], ◌∷◌, ◌≡◌, refl, sym, ◌∙◌, Bool, map, Option, none, some}
use avt_tracker.Base.Dict.{get, keys}
use avt_tracker.Base.Dict.Keys.{in_set, is_given, has-keys, is_given-get}
use avt_tracker.Tracker.DeviceRows.{TrackerDevice}
use avt_tracker.Tracker.Monitor.{
  list_devices, monitor_overview, DeviceEntry, OverviewEntry, info_field,
}
use avt_tracker.Tracker.Registry.{
  get_connection_info, get_connected_imeis, is_connected, Registry, TrackerConnectionInfo,
}
use avt_tracker.Tracker.Registry.InStep.{IsInStep}

is_given-info_field :
    (field : TrackerConnectionInfo → ℕ) (info : Option TrackerConnectionInfo)
    → is_given (info_field field info) ≡ is_given info
is_given-info_field field none = refl
is_given-info_field field (some info) = refl

-- The registry's two maps give the same answer for each device.
has-is_given :
    (device : TrackerDevice) (r : Registry)
    → IsInStep r
    → in_set device.imei (keys r.sockets) ≡ is_given (get device.imei r.info)
has-is_given device r h = rw h.same_keys (sym (is_given-get device.imei r.info))

-- While the registry's two maps have the same keys (as they always have), `GET devices` and
-- `GET monitor/overview` agree, device by device, on who is online, and the overview gives a time of
-- connection, and of the last activity, for exactly the devices that it calls online.
pub monitor_overview_lem :
    (devices : List TrackerDevice) (r : Registry)
    → IsInStep r
    → (map (λ (e : DeviceEntry). e.online) (list_devices devices r)
        ≡ map (λ (e : OverviewEntry). e.online) (monitor_overview devices r).devices)
      × (map (λ (e : OverviewEntry). is_given e.connected_at) (monitor_overview devices r).devices
          ≡ map (λ (e : OverviewEntry). e.online) (monitor_overview devices r).devices)
      × (map
            (λ (e : OverviewEntry). is_given e.last_activity_at)
            (monitor_overview devices r).devices
          ≡ map (λ (e : OverviewEntry). e.online) (monitor_overview devices r).devices)
unfolding list_devices monitor_overview is_connected get_connected_imeis get_connection_info
monitor_overview_lem [] r h = (refl, refl, refl)
monitor_overview_lem (device ∷ devices) r h =
    let (same, connected, active) = monitor_overview_lem devices r h in
    let info = get device.imei r.info in
    let given = has-is_given device r h in
    (
      ap₂ (λ (b : Bool) (bs : List Bool). b ∷ bs) (has-keys device.imei r.sockets) same,
      ap₂ (λ (b : Bool) (bs : List Bool). b ∷ bs)
          (is_given-info_field (λ (i : TrackerConnectionInfo). i.connected_at) info ∙ sym given)
          connected,
      ap₂ (λ (b : Bool) (bs : List Bool). b ∷ bs)
          (is_given-info_field (λ (i : TrackerConnectionInfo). i.last_activity_at) info ∙ sym given)
          active,
    )
