-- ===== src/Lib.antt =====
-- This library models the ingest path of the tracker service: bytes of AVT110 trackers and StarLink
-- units arrive on TCP sockets, are cut into frames or lines, and each is decoded into a typed value
-- with warnings; the servers answer the trackers, keep a registry of the connected devices, have the
-- reports saved, and announce events that an outbox and SNS pass on to other services.
--
-- src/tracker/tcp/tracker-frame-splitter.ts is Tracker/Splitter.antt. The object's state is the
-- record `Splitter` (`buffer`, `max_buffer_bytes`); `push`, `reset` and `pending_byte_count` are the
-- methods, `resolve_frame_length` with `length_after_colon` and `fallback_length` is
-- `resolveFrameLength`, and `round` is one turn of the loop in `push`. The loop runs on fuel, one unit
-- for each byte of the buffer and one more; each turn that does not end it takes a byte at least.
-- Its child modules hold the loop (Rounds), one push (Push), whole frames (Whole), pieces of a frame
-- (Chunks), streams in chunks (Streams) and the early cut (Early). `push_all` there is a connection:
-- its chunks, pushed in order.
--
-- src/tracker/parser/utils/buffer-cursor.ts is Tracker/Cursor.antt, a state of buffer and offset with
-- reads that may throw; src/tracker/parser/utils/binary-codec.util.ts is Tracker/Codec.antt and
-- Tracker/Codec/Dates.antt. Tracker/Errors.antt lists what is thrown and the warnings, one
-- constructor for each message template; the texts themselves are not written out.
--
-- src/tracker/parser/tracker-parser.service.ts is Tracker/Parser.antt (`parseFrame`, the heartbeat),
-- Tracker/Header.antt (`readHeadToken`, `parseHeader`), Tracker/Kinds.antt (`resolveKind`),
-- Tracker/Report.antt (`parseReportDataZone`), Tracker/Ascii.antt (`parseAsciiDataZone`,
-- `parsePeoFenceList`) and Tracker/Blocks (the blocks of a report, one file each: Gnss, EventData,
-- CanOne, CanTwo, CanThree, Electric, CanAdvanced). The records are those of
-- src/tracker/parser/tracker-parser.types.ts. All masks are decoded by the loop of
-- Tracker/Decode.antt, over a state of cursor, warnings and the block that is filled in place, so
-- that what was read before an error stays. Tracker/Mobileye.antt and Tracker/EventNames.antt are
-- src/tracker/parser/mobileye-adas.types.ts and src/tracker/parser/tracker-parser.constants.ts.
-- Tracker/Parser/RoundTrip.antt and Tracker/Codec/Imei.antt have the encoders of
-- src/tracker/parser/test-fixtures.ts.
--
-- src/tracker/tcp/tracker-connection-registry.service.ts is Tracker/Registry.antt, over the maps of
-- Base/Dict.antt, which keep insertion order as JavaScript's do. Of
-- src/tracker/tcp/tracker-tcp-server.service.ts, Tracker/Connections.antt has `registerDevice`
-- (`register_device`) and the `close` handler (`closed`); what they ask of the persistence service
-- and the event emitter is a list of announcements. Tracker/Server.antt has the `data` handler
-- (`receive`), `handleFrame` (`handle_frame`), the replies and the saves: a save that has begun is in
-- `saving` until the event `save_ended`, whose place in that list makes any order of completions a
-- sequence of events; `step` is one turn of the event loop, over any number of sockets. Its children
-- say which replies are owed (Replies, Answers), end the saves (Endings) and follow a device from its
-- bytes on (Sessions).
--
-- src/tracker/persistence/tracker-persistence.service.ts is Tracker/Persistence.antt, and
-- src/starlink/persistence/starlink-persistence.service.ts is Starlink/Persistence.antt: `saveReport`,
-- `markDeviceConnected` and `markDeviceDisconnected` over the two tables of Storage.antt, whose
-- operations (`upsert`, `findOneBy`, `save`) are parameters with laws; the rows and patches are in the
-- files DeviceRows and ReportRows beside them. An upsert sets the columns that it names in a row, new
-- or old, and leaves the others. Storage/Columns, Storage/Histories and Storage/Latest hold what the
-- two services share; the files Tellings describe what a call says of a device apart from the
-- patches and the entities, and LastKnown compares the two.
--
-- src/tracker/events/tracker-event-outbox.service.ts, with `listUnreadEvents` of
-- src/tracker/tracker.controller.ts, is Events/Outbox.antt, over a repository that is a parameter; its
-- `listDevices` and `monitorOverview` are Tracker/Monitor.antt.
-- src/tracker/publishing/tracker-event-publisher.service.ts is Events/Publisher.antt.
--
-- src/starlink/tcp/starlink-line-splitter.ts is Starlink/Splitter.antt; its loop has one unit of fuel
-- for each byte and one more. src/starlink/parser/starlink-parser.service.ts is
-- Starlink/Pattern.antt (the regular expression, as a matcher) and Starlink/Parser.antt, with
-- Starlink/Payload.antt (src/starlink/parser/starlink-parser.types.ts),
-- Starlink/Codec.antt (src/starlink/parser/utils/starlink-codec.util.ts) and Starlink/Events.antt
-- (src/starlink/parser/starlink-parser.constants.ts). Starlink/Parser/Lines.antt has
-- `buildStarlinkLine` of src/starlink/parser/test-fixtures.ts.
-- src/starlink/tcp/starlink-connection-registry.service.ts is Starlink/Registry.antt, and
-- src/starlink/tcp/starlink-tcp-server.service.ts is Starlink/Server.antt (the handlers of one socket)
-- and Starlink/Server/Loop.antt (the event loop over any sockets, with saves as in the tracker server).
--
-- How numbers are read: a byte is a natural number, and theorems ask for its bound where they need
-- it. Shifts and masks are quotients and remainders by powers of two. A reading that the source
-- multiplies by a decimal constant, or divides by a power of ten, is kept as the integer with its
-- unit, since the rounding of doubles is not modelled. The ASCII data zone uses `Number(text)` and
-- comparisons of doubles; these are the parameter `Doubles`, of which only the law is assumed that
-- `Number(undefined)` is not finite. A `Date` is milliseconds since 1970. Log lines are left out.
--
-- Node's integer reads of a given width take one to six bytes and throw for others. `buildFrame` writes
-- the device id and the parts of the date modulo 256; that its numbers fit is a hypothesis.
--
-- The text protocol's doubles are the parameter `Floats`; of the double that `parseInt` gives for the
-- digits of a message's type or index only the law is assumed that it is exact up to
-- `Number.MAX_SAFE_INTEGER`. The integers of single tags keep every digit. The UTF-8 decoder is the
-- parameter `Utf8`, of which only the law is assumed that it keeps ASCII.
--
-- Not modelled: the listeners and the sockets' timeouts, which end a socket; database statements that
-- fail half way through a save; the queries of the persistence services, and the controllers but for
-- the unread events and the trackers' device lists; the fixtures' builders of data zones. The
-- entities' decorators, migrations, configuration and start-up files hold no logic of this kind.
pub mod Base
pub mod Tracker
pub mod Starlink
pub mod Events
pub mod Storage
