-- ===== src/Starlink/Registry/Mirrors.antt =====
-- The registry of the StarLink units mirrors the registry of the trackers.
use avt_tracker.Base.{List, map, none, inr, inl, Option-cases, sym, ℕ, Option, some, ◌≡◌, refl}
use avt_tracker.Base.Dict.{set, get}
use avt_tracker.Base.Dict.Mapped.{
  map_option, map_values, get-map_values, set-map_values, delete-map_values, values-map_values,
}
use avt_tracker.Base.Text.{Text}
use avt_tracker.Starlink.Registry.{
  connected_count, get_connected_device_ids, is_connected, Registry, StarlinkConnectionInfo,
  register, touch, unregister, get_socket, get_connection_info, get_all_connection_info,
  connected_since,
}
use avt_tracker.Tracker

-- The tracker's metadata, with the device id in the IMEI's place.
abbrev pub as_tracker_info : StarlinkConnectionInfo → Tracker.Registry.TrackerConnectionInfo
as_tracker_info info = record {
  imei = info.device_id;
  remote_address = info.remote_address;
  remote_port = info.remote_port;
  connected_at = info.connected_at;
  last_activity_at = info.last_activity_at;
}

abbrev pub as_tracker : Registry → Tracker.Registry.Registry
as_tracker r = record { sockets = r.sockets; info = map_values as_tracker_info r.info }

-- The two registries do the same: each call on the StarLink registry changes it as the tracker
-- registry's call changes the same registry with IMEIs for device ids, and the calls that ask give
-- the same answers.
pub record IsMirrored (r : Registry) : Type 0 where
  pub same_register :
      (id : Text) (socket : ℕ) (address : Option Text) (port : Option ℕ) (now : ℕ)
      → as_tracker (register id socket address port now r)
        ≡ Tracker.Registry.register id socket address port now (as_tracker r)
  pub same_touch :
      (id : Text) (now : ℕ)
      → as_tracker (touch id now r) ≡ Tracker.Registry.touch id now (as_tracker r)
  pub same_unregister :
      (id : Text) → as_tracker (unregister id r) ≡ Tracker.Registry.unregister id (as_tracker r)
  pub same_socket : (id : Text) → get_socket id r ≡ Tracker.Registry.get_socket id (as_tracker r)
  pub same_connected :
      (id : Text) → is_connected id r ≡ Tracker.Registry.is_connected id (as_tracker r)
  pub same_ids : get_connected_device_ids r ≡ Tracker.Registry.get_connected_imeis (as_tracker r)
  pub same_count : connected_count r ≡ Tracker.Registry.connected_count (as_tracker r)
  pub same_info :
      (id : Text)
      → map_option as_tracker_info (get_connection_info id r)
        ≡ Tracker.Registry.get_connection_info id (as_tracker r)
  pub same_all :
      map as_tracker_info (get_all_connection_info r)
      ≡ Tracker.Registry.get_all_connection_info (as_tracker r)

since_lem :
    (before : Option StarlinkConnectionInfo) (now : ℕ)
    → connected_since before now
      ≡ Tracker.Registry.connected_since (map_option as_tracker_info before) now
unfolding connected_since Tracker.Registry.connected_since
since_lem none now = refl
since_lem (some info) now = refl

with_info :
    (sockets : List (Text × ℕ)) (id : Text) (info : StarlinkConnectionInfo)
    (entries : List (Text × StarlinkConnectionInfo))
    → as_tracker (record { sockets = sockets; info = set id info entries }) ≡ record {
      sockets = sockets;
      info = set id (as_tracker_info info) (map_values as_tracker_info entries);
    }
with_info sockets id info entries = rw (set-map_values as_tracker_info id info entries) refl

register-as_tracker :
    (id : Text) (socket : ℕ) (address : Option Text) (port : Option ℕ) (now : ℕ) (r : Registry)
    → as_tracker (register id socket address port now r)
      ≡ Tracker.Registry.register id socket address port now (as_tracker r)
unfolding register Tracker.Registry.register
register-as_tracker id socket address port now r =
    rw (get-map_values as_tracker_info id r.info, ← since_lem (get id r.info) now)
      (with_info (set id socket r.sockets) id
        (record {
          device_id = id;
          remote_address = address;
          remote_port = port;
          connected_at = connected_since (get id r.info) now;
          last_activity_at = now;
        })
        r.info)

touch-as_tracker :
    (id : Text) (now : ℕ) (r : Registry)
    → as_tracker (touch id now r) ≡ Tracker.Registry.touch id now (as_tracker r)
unfolding touch Tracker.Registry.touch
touch-as_tracker id now r = elim (Option-cases (get id r.info)) [
  | inl absent ↦
      rw (touch, Tracker.Registry.touch, get-map_values as_tracker_info id r.info, absent) refl
  | inr (info, present) ↦
      rw (touch, Tracker.Registry.touch, get-map_values as_tracker_info id r.info, present)
        (with_info r.sockets id (record info { last_activity_at = now }) r.info)
]

-- Each call that changes a StarLink registry changes it as the same call of the tracker registry
-- changes the same registry with device ids for IMEIs, and the calls that ask for a socket, for
-- whether a device is connected, for the connected devices and their number, for the metadata of a
-- device, or for all metadata give the same answers.
pub registry-IsMirrored : (r : Registry) → IsMirrored r
unfolding unregister Tracker.Registry.unregister get_socket Tracker.Registry.get_socket
    get_connection_info Tracker.Registry.get_connection_info get_all_connection_info
    Tracker.Registry.get_all_connection_info is_connected Tracker.Registry.is_connected
    get_connected_device_ids Tracker.Registry.get_connected_imeis connected_count
    Tracker.Registry.connected_count
registry-IsMirrored r = record {
  same_register = λ id socket address port now. register-as_tracker id socket address port now r;
  same_touch = λ id now. touch-as_tracker id now r;
  same_unregister = λ id. rw (delete-map_values as_tracker_info id r.info) refl;
  same_socket = λ id. refl;
  same_connected = λ id. refl;
  same_ids = refl;
  same_count = refl;
  same_info = λ id. sym (get-map_values as_tracker_info id r.info);
  same_all = values-map_values as_tracker_info r.info;
}
