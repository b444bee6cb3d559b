-- ===== src/Events.antt =====
-- The event stream for other services (src/tracker/events/, src/tracker/publishing/ and the
-- `events/unread` endpoint of src/tracker/tracker.controller.ts).
pub mod Outbox
pub mod Publisher
