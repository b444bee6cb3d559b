-- ===== src/Starlink/Server/Loop.antt =====
-- The server over any number of sockets: connections, data, closes, and the ends of saves, in any
-- order.
use avt_tracker.Base.{ℕ, List, [], ◌∷◌, Option, none, some, if◌then◌else◌, ◌==◌}
use avt_tracker.Base.Exec.{Result}
use avt_tracker.Base.Picks.{pick}
use avt_tracker.Base.Text.{Text}
use avt_tracker.Starlink.Codec.{Floats}
use avt_tracker.Starlink.Splitter.{Utf8}
use avt_tracker.Starlink.Server.{Peer, StarlinkServer, Save, emit_received, receive, closed}

module _ (utf8 : Utf8) (js : Floats) (Saved Failure : Type 0) where
  abbrev pub end_save :
      Result Failure (Option Saved)
      → Option (Save utf8 js Saved Failure × List (Save utf8 js Saved Failure))
      → StarlinkServer utf8 js Saved Failure
      → StarlinkServer utf8 js Saved Failure
  end_save outcome none s = s
  end_save outcome (some (save, others)) s =
      emit_received utf8 js Saved Failure save outcome (record s { saving = others })

  -- The open sockets with their handlers' variables.
  pub record World : Type 0 where
    pub peers : ℕ → Option Peer
    pub server : StarlinkServer utf8 js Saved Failure
    pub max_buffer_bytes : ℕ

  pub data Event : Type 0 where
    accepted : (socket : ℕ) → Option Text → Option ℕ → Event
    data_arrived : (now socket : ℕ) → List ℕ → Event
    socket_closed : (socket : ℕ) → Event
    save_ended : ℕ → Result Failure (Option Saved) → Event

  abbrev pub with_peer : ℕ → Option Peer → (ℕ → Option Peer) → ℕ → Option Peer
  with_peer socket peer peers other = if other == socket then peer else peers other

  -- `handleConnection`: nothing is known of the device.
  abbrev pub new_peer : ℕ → Option Text → Option ℕ → ℕ → Peer
  new_peer socket address port max = record {
    socket = socket;
    remote_address = address;
    remote_port = port;
    device_id = none;
    splitter = record { buffer = []; max_buffer_bytes = max };
  }

  abbrev pub after_data : ℕ → World → Peer × StarlinkServer utf8 js Saved Failure → World
  after_data socket w (p, s) = record w { peers = with_peer socket (some p) w.peers; server = s }

  abbrev pub data_for : ℕ → ℕ → List ℕ → Option Peer → World → World
  data_for now socket chunk none w = w
  data_for now socket chunk (some p) w =
      after_data socket w (receive utf8 js Saved Failure now chunk (p, w.server))

  abbrev pub close_for : ℕ → Option Peer → World → World
  close_for socket none w = w
  close_for socket (some p) w = record w {
    peers = with_peer socket none w.peers;
    server = closed utf8 js Saved Failure p w.server;
  }

  -- One turn of the event loop.
  unfoldable pub step : Event → World → World
  step (accepted socket address port) w = record w {
    peers = with_peer socket (some (new_peer socket address port w.max_buffer_bytes)) w.peers;
  }
  step (data_arrived now socket chunk) w = data_for now socket chunk (w.peers socket) w
  step (socket_closed socket) w = close_for socket (w.peers socket) w
  step (save_ended n outcome) w = record w {
    server = end_save outcome (pick n w.server.saving) w.server;
  }

  unfoldable pub run : List Event → World → World
  run [] w = w
  run (event ∷ events) w = run events (step event w)
