-- ===== src/Tracker/Connections/Lifecycle.antt =====
-- What the registry says of a device while its connections come and go.
use avt_tracker.Base.{list_eq_comm, ◌∙◌, list_eq, ℕ, ◌≡◌, ◌∷◌, none, some, false}
use avt_tracker.Base.Dict.{
  get-set_other, set, get-delete_other, get-delete_same, has-delete_same, get-set_same,
}
use avt_tracker.Tracker.Connections.{
  Registry, Service, Text, Connection, is_known_as, unregister, register, closed, register_device,
}
use avt_tracker.Tracker.Registry.{
  connected_since, get_connection_info, register, unregister, is_connected, get_socket,
}

-- The registry behind a first frame of the device and the close of the connection right after it.
abbrev pub greeted_and_gone : Connection → ℕ → Text → ℕ → Service → Registry
greeted_and_gone c d ds now s =
    (closed (register_device c (d ∷ ds) now s).0 (register_device c (d ∷ ds) now s).1).registry

-- Take a device with a nonempty IMEI and a connection that has not said which device it is. Once it
-- has said so, the registry gives its socket for the device, with metadata that has its address, its
-- port and the time, the time it connected being the one from before where there was one. If it closes right
-- then, with nothing in between, the device has neither a socket nor metadata, and every other
-- device has the socket and the metadata from before.
pub register_device-closed :
    (c : Connection) (d : ℕ) (ds : Text) (now : ℕ) (s : Service)
    → c.imei ≡ none
    → (get_socket (d ∷ ds) (register_device c (d ∷ ds) now s).1.registry ≡ some c.socket)
      × (get_connection_info (d ∷ ds) (register_device c (d ∷ ds) now s).1.registry
          ≡ some (record {
            imei = d ∷ ds;
            remote_address = c.remote_address;
            remote_port = c.remote_port;
            connected_at = connected_since (get_connection_info (d ∷ ds) s.registry) now;
            last_activity_at = now;
          }))
      × (get_socket (d ∷ ds) (greeted_and_gone c d ds now s) ≡ none)
      × (get_connection_info (d ∷ ds) (greeted_and_gone c d ds now s) ≡ none)
      × ((other : Text)
          → list_eq (d ∷ ds) other ≡ false
          → (get_socket other (greeted_and_gone c d ds now s) ≡ get_socket other s.registry)
            × (get_connection_info other (greeted_and_gone c d ds now s)
                ≡ get_connection_info other s.registry))
unfolding register_device closed get_socket get_connection_info register unregister is_known_as
register_device-closed c d ds now s new = (
  rw new (get-set_same (d ∷ ds) c.socket s.registry.sockets),
  rw new (get-set_same (d ∷ ds) _ s.registry.info),
  rw new (get-delete_same (d ∷ ds) (set (d ∷ ds) c.socket s.registry.sockets)),
  rw new (get-delete_same (d ∷ ds) _),
  λ other differs. (
    rw new (
        get-delete_other (d ∷ ds) other (set (d ∷ ds) c.socket s.registry.sockets) differs
        ∙ get-set_other (d ∷ ds) other c.socket s.registry.sockets differs),
    rw new (
        get-delete_other (d ∷ ds) other _ differs
        ∙ get-set_other (d ∷ ds) other _ s.registry.info differs),
  ),
)

-- A device reconnects before its old connection is closed: the registry gives the new socket, but
-- when the old connection closes the device counts as not connected, with the new one still open.
pub closed-stale :
    (old new : Connection) (d : ℕ) (ds : Text) (now : ℕ) (s : Service)
    → old.imei ≡ some (d ∷ ds)
    → new.imei ≡ none
    → (get_socket (d ∷ ds) (register_device new (d ∷ ds) now s).1.registry ≡ some new.socket)
      × (is_connected (d ∷ ds) (closed old (register_device new (d ∷ ds) now s).1).registry ≡ false)
unfolding register_device closed get_socket is_connected register unregister is_known_as
closed-stale old new d ds now s known fresh = (
  rw fresh (get-set_same (d ∷ ds) new.socket s.registry.sockets),
  rw (fresh, known) (has-delete_same (d ∷ ds) (set (d ∷ ds) new.socket s.registry.sockets)),
)

-- A connection that said it is one device and then another (with a nonempty IMEI) and closes leaves
-- the first device with the socket it had.
pub closed-renamed :
    (c : Connection) (first : Text) (d : ℕ) (ds : Text) (now : ℕ) (s : Service)
    → c.imei ≡ some first
    → list_eq first (d ∷ ds) ≡ false
    → get_socket first
        (closed (register_device c (d ∷ ds) now s).0 (register_device c (d ∷ ds) now s).1).registry
      ≡ get_socket first s.registry
unfolding register_device closed get_socket register unregister is_known_as
closed-renamed c first d ds now s known differs =
    let differs' : list_eq (d ∷ ds) first ≡ false = list_eq_comm (d ∷ ds) first ∙ differs in
    rw (known, differs)
      (get-delete_other (d ∷ ds) first (set (d ∷ ds) c.socket s.registry.sockets) differs'
        ∙ get-set_other (d ∷ ds) first c.socket s.registry.sockets differs')
