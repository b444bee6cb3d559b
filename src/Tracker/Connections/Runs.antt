-- ===== src/Tracker/Connections/Runs.antt =====
-- The registry and two connections of one device, at concrete inputs.
use avt_tracker.Base.{refl, false, ◌∷◌, list_eq, ◌≡◌, ℕ, [], none, some}
use avt_tracker.Base.Text.{codes, Text}
use avt_tracker.Tracker.Connections.{closed, register_device, Connection, Service}
use avt_tracker.Tracker.Connections.Lifecycle.{
  greeted_and_gone, closed-stale, register_device-closed, closed-renamed,
}
use avt_tracker.Tracker.Registry.{connected_since, get_connection_info, is_connected, get_socket}

abbrev idle : Service
idle = record { registry = record { sockets = []; info = [] }; announced = [] }

abbrev unknown_peer : ℕ → Connection
unknown_peer n = record { socket = n; remote_address = none; remote_port = some 4000; imei = none }

abbrev known_peer : ℕ → Text → Connection
known_peer n imei = record {
  socket = n;
  remote_address = none;
  remote_port = none;
  imei = some imei;
}

register_device-closed_example :
    (get_socket (codes "35") (register_device (unknown_peer 3) (codes "35") 7 idle).1.registry
      ≡ some 3)
    × (get_connection_info
          (codes "35")
          (register_device (unknown_peer 3) (codes "35") 7 idle).1.registry
        ≡ some (record {
          imei = codes "35";
          remote_address = none;
          remote_port = some 4000;
          connected_at = connected_since (get_connection_info (codes "35") idle.registry) 7;
          last_activity_at = 7;
        }))
    × (get_socket (codes "35") (greeted_and_gone (unknown_peer 3) b'3' (b'5' ∷ []) 7 idle) ≡ none)
    × (get_connection_info (codes "35") (greeted_and_gone (unknown_peer 3) b'3' (b'5' ∷ []) 7 idle)
        ≡ none)
    × ((other : Text)
        → list_eq (codes "35") other ≡ false
        → (get_socket other (greeted_and_gone (unknown_peer 3) b'3' (b'5' ∷ []) 7 idle)
            ≡ get_socket other idle.registry)
          × (get_connection_info other (greeted_and_gone (unknown_peer 3) b'3' (b'5' ∷ []) 7 idle)
              ≡ get_connection_info other idle.registry))
register_device-closed_example =
    register_device-closed (unknown_peer 3) b'3' (b'5' ∷ []) 7 idle refl

closed-stale_example :
    (get_socket (codes "35") (register_device (unknown_peer 4) (codes "35") 8 idle).1.registry
      ≡ some 4)
    × (is_connected
          (codes "35")
          (closed
            (known_peer 3 (codes "35"))
            (register_device (unknown_peer 4) (codes "35") 8 idle).1).registry
        ≡ false)
closed-stale_example =
    closed-stale (known_peer 3 (codes "35")) (unknown_peer 4) b'3' (b'5' ∷ []) 8 idle refl refl

-- The connection said that it is one device, which is registered, and then says another.
abbrev one_known : Service
one_known = (register_device (unknown_peer 3) (codes "35") 7 idle).1

closed-renamed_example :
    get_socket
      (codes "35")
      (closed
        (register_device (known_peer 3 (codes "35")) (codes "44") 8 one_known).0
        (register_device (known_peer 3 (codes "35")) (codes "44") 8 one_known).1).registry
    ≡ get_socket (codes "35") one_known.registry
closed-renamed_example =
    closed-renamed (known_peer 3 (codes "35")) (codes "35") b'4' (b'4' ∷ []) 8 one_known refl refl
