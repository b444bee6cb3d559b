-- ===== src/Tracker/Server.antt =====
-- The handlers of one socket and the replies of src/tracker/tcp/tracker-tcp-server.service.ts:
-- `data`, `handleFrame`, `handleReportFrame`, `handleHeartbeatFrame` and `writeFrame`. A save that
-- the persistence service has begun is in `saving` until it is done; what is handed to
-- `socket.write` is in `written`, with the socket. Log lines are left out.
pub mod Replies
pub mod Answers
pub mod Endings
pub mod Sessions
pub mod Runs
use avt_tracker.Base.Picks.{pick}
use avt_tracker.Base.{◌==◌, if◌then◌else◌, ℕ, List, [], ◌∷◌, ◌++◌, Option, none, some, zero, suc}
use avt_tracker.Base.Exec.{Result, ok, err}
use avt_tracker.Base.Text.{Text, codes}
use avt_tracker.Tracker.Ascii.{Doubles}
use avt_tracker.Tracker.Connections.{Connection, Service, register_device, closed}
use avt_tracker.Tracker.Errors.{Error}
use avt_tracker.Tracker.Kinds.{TrackerFrameKind, rpt, rpt_historical, hbd}
use avt_tracker.Tracker.Parser.{ParsedTrackerFrame, parse_frame}
use avt_tracker.Tracker.Registry.{touch}
use avt_tracker.Tracker.Splitter.{Splitter, push}

-- `+SACK:${serialNumberHex}#`
abbrev pub sack : Text → Text
sack serial_number_hex = codes "+SACK:" ++ (serial_number_hex ++ codes "#")

-- `+SHBD:${serialNumberHex}#`
abbrev pub shbd : Text → Text
shbd serial_number_hex = codes "+SHBD:" ++ (serial_number_hex ++ codes "#")

-- A socket with the variables of its handlers.
pub record Peer : Type 0 where
  pub connection : Connection
  pub splitter : Splitter

-- `Saved` is the row that the persistence service gives back, `Failure` what it throws.
module _ (js : Doubles) (Saved Failure : Type 0) where
  pub record Save : Type 0 where
    pub socket : ℕ
    pub imei : Text
    pub parsed : ParsedTrackerFrame js

  pub record Server : Type 0 where
    pub service : Service
    pub written : List (ℕ × Text)
    pub saving : List Save
    pub received : List (Text × ParsedTrackerFrame js × Saved)

  abbrev pub write_frame : ℕ → Text → Server → Server
  write_frame socket text s = record s { written = s.written ++ ((socket, text) ∷ []) }

  abbrev pub handle_report_frame : ℕ → ParsedTrackerFrame js → Text → Server → Server
  handle_report_frame socket parsed imei s = record s {
    saving = s.saving ++ (record { socket = socket; imei = imei; parsed = parsed } ∷ []);
  }

  abbrev pub handle_heartbeat_frame : ℕ → Text → Text → ℕ → Server → Server
  handle_heartbeat_frame socket serial_number_hex imei now s =
      write_frame socket (shbd serial_number_hex)
        (record s { service = record s.service { registry = touch imei now s.service.registry } })

  -- The `switch` on the kind.
  abbrev pub handle_kind : ℕ → ℕ → ParsedTrackerFrame js → TrackerFrameKind → Server → Server
  handle_kind socket now parsed rpt s = handle_report_frame socket parsed parsed.header.imei s
  handle_kind socket now parsed rpt_historical s =
      handle_report_frame socket parsed parsed.header.imei s
  handle_kind socket now parsed hbd s =
      handle_heartbeat_frame socket parsed.header.serial_number_hex parsed.header.imei now s
  handle_kind socket now parsed kind s = s

  abbrev pub with_service : Server → Connection × Service → Connection × Server
  with_service s (c, service) = (c, record s { service = service })

  abbrev pub handle_parsed :
      ℕ → Result Error (ParsedTrackerFrame js) → Connection × Server → Connection × Server
  handle_parsed now (err e) (c, s) = (c, s)
  handle_parsed now (ok parsed) (c, s) =
      let (c', s') = with_service s (register_device c parsed.header.imei now s.service) in
      (c', handle_kind c.socket now parsed parsed.header.kind s')

  unfoldable pub handle_frame : ℕ → List ℕ → Connection × Server → Connection × Server
  handle_frame now frame state = handle_parsed now (parse_frame js frame) state

  -- `for (const frame of frames)`
  unfoldable pub handle_frames : ℕ → List (List ℕ) → Connection × Server → Connection × Server
  handle_frames now [] state = state
  handle_frames now (frame ∷ frames) state = handle_frames now frames (handle_frame now frame state)

  -- The handler of `data`. A buffer that overflowed is only logged.
  unfoldable pub receive : ℕ → List ℕ → Peer × Server → Peer × Server
  receive now chunk (p, s) =
      let (pushed, splitter) = push p.splitter chunk in
      let (c, s') = handle_frames now pushed.frames (p.connection, s) in
      (record { connection = c; splitter = splitter }, s')

  -- `.then((saved) => …).catch(…)`
  abbrev pub emit_received : Save → Result Failure (Option Saved) → Server → Server
  emit_received save (err failure) s = s
  emit_received save (ok none) s = s
  emit_received save (ok (some saved)) s = record s {
    received = s.received ++ ((save.imei, save.parsed, saved) ∷ []);
  }

  abbrev pub finish_save :
      Result Failure (Option Saved) → Option (Save × List Save) → Server → Server
  finish_save outcome none s = s
  finish_save outcome (some (save, others)) s =
      write_frame save.socket (sack save.parsed.header.serial_number_hex)
        (emit_received save outcome (record s { saving = others }))

  -- The save at a place is done, well or not, and `.finally(…)` has run.
  unfoldable pub saved : ℕ → Result Failure (Option Saved) → Server → Server
  saved n outcome s = finish_save outcome (pick n s.saving) s

  -- The open sockets with their handlers' variables.
  pub record World : Type 0 where
    pub peers : ℕ → Option Peer
    pub server : Server
    pub max_buffer_bytes : ℕ

  pub data Event : Type 0 where
    accepted : (socket : ℕ) → Option Text → Option ℕ → Event
    data_arrived : (now socket : ℕ) → List ℕ → Event
    socket_closed : (socket : ℕ) → Event
    save_ended : ℕ → Result Failure (Option Saved) → Event

  abbrev pub with_peer : ℕ → Option Peer → (ℕ → Option Peer) → ℕ → Option Peer
  with_peer socket peer peers other = if other == socket then peer else peers other

  -- `handleConnection`: nothing is known of the device.
  abbrev pub new_peer : ℕ → Option Text → Option ℕ → ℕ → Peer
  new_peer socket address port max = record {
    connection = record {
      socket = socket;
      remote_address = address;
      remote_port = port;
      imei = none;
    };
    splitter = record { buffer = []; max_buffer_bytes = max };
  }

  abbrev pub after_data : ℕ → World → Peer × Server → World
  after_data socket w (p, s) = record w { peers = with_peer socket (some p) w.peers; server = s }

  abbrev pub data_for : ℕ → ℕ → List ℕ → Option Peer → World → World
  data_for now socket chunk none w = w
  data_for now socket chunk (some p) w = after_data socket w (receive now chunk (p, w.server))

  abbrev pub close_for : ℕ → Option Peer → World → World
  close_for socket none w = w
  close_for socket (some p) w = record w {
    peers = with_peer socket none w.peers;
    server = record w.server { service = closed p.connection w.server.service };
  }

  -- One turn of the event loop.
  unfoldable pub step : Event → World → World
  step (accepted socket address port) w = record w {
    peers = with_peer socket (some (new_peer socket address port w.max_buffer_bytes)) w.peers;
  }
  step (data_arrived now socket chunk) w = data_for now socket chunk (w.peers socket) w
  step (socket_closed socket) w = close_for socket (w.peers socket) w
  step (save_ended n outcome) w = record w { server = saved n outcome w.server }

  unfoldable pub run : List Event → World → World
  run [] w = w
  run (event ∷ events) w = run events (step event w)
