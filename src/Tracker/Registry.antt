-- ===== src/Tracker/Registry.antt =====
-- src/tracker/tcp/tracker-connection-registry.service.ts: the sockets and the metadata of the
-- connected devices, in two maps by IMEI. A socket is an identity; the clock is an argument.
pub mod InStep
pub mod Runs
use avt_tracker.Base.{Bool, length, ℕ, List, Option, none, some}
use avt_tracker.Base.Dict.{has, values, get, set, delete, keys}
use avt_tracker.Base.Text.{Text}

pub record TrackerConnectionInfo : Type 0 where
  pub imei : Text
  pub remote_address : Option Text
  pub remote_port : Option ℕ
  pub connected_at : ℕ
  pub last_activity_at : ℕ

pub record Registry : Type 0 where
  pub sockets : List (Text × ℕ)
  pub info : List (Text × TrackerConnectionInfo)

-- `existing?.connectedAt ?? now`
unfoldable pub connected_since : Option TrackerConnectionInfo → ℕ → ℕ
connected_since none now = now
connected_since (some existing) now = existing.connected_at

unfoldable pub register : Text → ℕ → Option Text → Option ℕ → ℕ → Registry → Registry
register imei socket remote_address remote_port now r = record {
  sockets = set imei socket r.sockets;
  info =
      set imei
        (record {
          imei = imei;
          remote_address = remote_address;
          remote_port = remote_port;
          connected_at = connected_since (get imei r.info) now;
          last_activity_at = now;
        })
        r.info;
}

-- The entry is changed in place, so it keeps its place in the map.
unfoldable pub touch : Text → ℕ → Registry → Registry
touch imei now r = elim (get imei r.info) [
  | none ↦ r
  | some existing ↦ record r { info = set imei (record existing { last_activity_at = now }) r.info }
]

unfoldable pub unregister : Text → Registry → Registry
unregister imei r = record { sockets = delete imei r.sockets; info = delete imei r.info }

unfoldable pub get_socket : Text → Registry → Option ℕ
get_socket imei r = get imei r.sockets

unfoldable pub is_connected : Text → Registry → Bool
is_connected imei r = has imei r.sockets

unfoldable pub get_connection_info : Text → Registry → Option TrackerConnectionInfo
get_connection_info imei r = get imei r.info

unfoldable pub get_connected_imeis : Registry → List Text
get_connected_imeis r = keys r.sockets

unfoldable pub get_all_connection_info : Registry → List TrackerConnectionInfo
get_all_connection_info r = values r.info

unfoldable pub connected_count : Registry → ℕ
connected_count r = length r.sockets
