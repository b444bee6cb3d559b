-- ===== src/Starlink/Registry.antt =====
-- src/starlink/tcp/starlink-connection-registry.service.ts: the sockets and the metadata of the
-- connected StarLink units, in two maps by device id. A socket is an identity; the clock is an
-- argument.
pub mod Mirrors
pub mod Runs
use avt_tracker.Base.{Bool, length, ℕ, List, Option, none, some}
use avt_tracker.Base.Dict.{has, values, get, set, delete, keys}
use avt_tracker.Base.Text.{Text}

pub record StarlinkConnectionInfo : Type 0 where
  pub device_id : Text
  pub remote_address : Option Text
  pub remote_port : Option ℕ
  pub connected_at : ℕ
  pub last_activity_at : ℕ

pub record Registry : Type 0 where
  pub sockets : List (Text × ℕ)
  pub info : List (Text × StarlinkConnectionInfo)

-- `existing?.connectedAt ?? now`
unfoldable pub connected_since : Option StarlinkConnectionInfo → ℕ → ℕ
connected_since none now = now
connected_since (some existing) now = existing.connected_at

unfoldable pub register : Text → ℕ → Option Text → Option ℕ → ℕ → Registry → Registry
register device_id socket remote_address remote_port now r = record {
  sockets = set device_id socket r.sockets;
  info =
      set device_id
        (record {
          device_id = device_id;
          remote_address = remote_address;
          remote_port = remote_port;
          connected_at = connected_since (get device_id r.info) now;
          last_activity_at = now;
        })
        r.info;
}

-- The entry is changed in place, so it keeps its place in the map.
unfoldable pub touch : Text → ℕ → Registry → Registry
touch device_id now r = elim (get device_id r.info) [
  | none ↦ r
  | some existing ↦ record r {
    info = set device_id (record existing { last_activity_at = now }) r.info;
  }
]

unfoldable pub unregister : Text → Registry → Registry
unregister device_id r = record {
  sockets = delete device_id r.sockets;
  info = delete device_id r.info;
}

unfoldable pub get_socket : Text → Registry → Option ℕ
get_socket device_id r = get device_id r.sockets

unfoldable pub is_connected : Text → Registry → Bool
is_connected device_id r = has device_id r.sockets

unfoldable pub get_connection_info : Text → Registry → Option StarlinkConnectionInfo
get_connection_info device_id r = get device_id r.info

unfoldable pub get_connected_device_ids : Registry → List Text
get_connected_device_ids r = keys r.sockets

unfoldable pub get_all_connection_info : Registry → List StarlinkConnectionInfo
get_all_connection_info r = values r.info

unfoldable pub connected_count : Registry → ℕ
connected_count r = length r.sockets
