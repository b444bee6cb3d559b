-- ===== src/Starlink/Server.antt =====
-- The handlers of one socket in src/starlink/tcp/starlink-tcp-server.service.ts: `data`, `close`,
-- `registerDevice`, `handleLine` and `handleReport`. No reply is sent. A save that the persistence
-- service has begun is in `saving` until it is done. Log lines are left out.
pub mod Rounds
pub mod Loop
pub mod Accounts
pub mod Sessions
pub mod Runs
use avt_tracker.Base.{
  ℕ, List, [], ◌∷◌, ◌++◌, Option, none, some, Bool, true, false, if◌then◌else◌, list_eq,
}
use avt_tracker.Base.Text.{Text}
use avt_tracker.Base.Exec.{Result, ok, err}
use avt_tracker.Starlink.Codec.{Floats}
use avt_tracker.Starlink.Parser.{parse_line}
use avt_tracker.Starlink.Payload.{ParsedStarlinkFrame, StarlinkError, StarlinkReportPayload}
use avt_tracker.Starlink.Registry.{Registry, register, touch, unregister}
use avt_tracker.Starlink.Splitter.{Utf8, LineSplitter, push_chunk}

pub data Announcement : Type 0 where
  mark_device_connected : Text → Announcement
  device_connected : Text → Option Text → Option ℕ → Announcement
  mark_device_disconnected : Text → Announcement
  device_disconnected : Text → Option Text → Option ℕ → Announcement

-- The variables that the handlers of one socket share.
pub record Peer : Type 0 where
  pub socket : ℕ
  pub remote_address : Option Text
  pub remote_port : Option ℕ
  pub device_id : Option Text
  pub splitter : LineSplitter

-- `deviceId === resolvedDeviceId`
unfoldable pub is_known_as : Option Text → Text → Bool
is_known_as none resolved = false
is_known_as (some device_id) resolved = list_eq device_id resolved

-- `Saved` is the row that the persistence service gives back, `Failure` what it throws.
module _ (utf8 : Utf8) (js : Floats) (Saved Failure : Type 0) where
  pub record Save : Type 0 where
    pub device_id : Text
    pub parsed : ParsedStarlinkFrame js

  pub record StarlinkServer : Type 0 where
    pub registry : Registry
    pub announced : List Announcement
    pub saving : List Save
    pub received : List (Text × ParsedStarlinkFrame js × Saved)
    pub report_format_tags : List Text

  unfoldable pub register_device : ℕ → Text → Peer × StarlinkServer → Peer × StarlinkServer
  register_device now resolved (p, s) =
      if is_known_as p.device_id resolved
      then (p, record s { registry = touch resolved now s.registry })
      else (
        record p { device_id = some resolved },
        record s {
          registry = register resolved p.socket p.remote_address p.remote_port now s.registry;
          announced =
              s.announced
              ++ (mark_device_connected resolved
                  ∷ device_connected resolved p.remote_address p.remote_port
                  ∷ []);
        },
      )

  -- `if (parsed.report) this.handleReport(parsed, header.deviceId)`
  abbrev pub handle_report :
      ParsedStarlinkFrame js → Option (StarlinkReportPayload js) → StarlinkServer → StarlinkServer
  handle_report parsed none s = s
  handle_report parsed (some report) s = record s {
    saving = s.saving ++ (record { device_id = parsed.header.device_id; parsed = parsed } ∷ []);
  }

  abbrev pub then_report : ParsedStarlinkFrame js → Peer × StarlinkServer → Peer × StarlinkServer
  then_report parsed (p, s) = (p, handle_report parsed parsed.report s)

  abbrev pub handle_parsed :
      ℕ
      → Result StarlinkError (ParsedStarlinkFrame js)
      → Peer × StarlinkServer
      → Peer × StarlinkServer
  handle_parsed now (err e) state = state
  handle_parsed now (ok parsed) state =
      then_report parsed (register_device now parsed.header.device_id state)

  unfoldable pub handle_line : ℕ → Text → Peer × StarlinkServer → Peer × StarlinkServer
  handle_line now line (p, s) = handle_parsed now (parse_line js line s.report_format_tags) (p, s)

  -- `for (const line of lines)`
  unfoldable pub handle_lines : ℕ → List Text → Peer × StarlinkServer → Peer × StarlinkServer
  handle_lines now [] state = state
  handle_lines now (line ∷ lines) state = handle_lines now lines (handle_line now line state)

  -- The handler of `data`. A buffer that overflowed is only logged.
  unfoldable pub receive : ℕ → List ℕ → Peer × StarlinkServer → Peer × StarlinkServer
  receive now chunk (p, s) =
      let (pushed, splitter) = push_chunk utf8 p.splitter chunk in
      handle_lines now pushed.lines (record p { splitter = splitter }, s)

  -- The handler of `close`. An empty device id is like none.
  abbrev pub closed_as : Option Text → Peer → StarlinkServer → StarlinkServer
  closed_as none p s = s
  closed_as (some []) p s = s
  closed_as (some (d ∷ ds)) p s = record s {
    registry = unregister (d ∷ ds) s.registry;
    announced =
        s.announced
        ++ (mark_device_disconnected (d ∷ ds)
            ∷ device_disconnected (d ∷ ds) p.remote_address p.remote_port
            ∷ []);
  }

  unfoldable pub closed : Peer → StarlinkServer → StarlinkServer
  closed p s = closed_as p.device_id p s

  -- `.then((saved) => …).catch(…)` of a save.
  abbrev pub emit_received : Save → Result Failure (Option Saved) → StarlinkServer → StarlinkServer
  emit_received save (err failure) s = s
  emit_received save (ok none) s = s
  emit_received save (ok (some saved)) s = record s {
    received = s.received ++ ((save.device_id, save.parsed, saved) ∷ []);
  }
