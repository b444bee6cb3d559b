-- ===== src/Tracker.antt =====
-- The AVT110 side of the service (src/tracker/).
pub mod Server
pub mod DeviceRows
pub mod ReportRows
pub mod Persistence
pub mod Monitor
pub mod Splitter
pub mod Errors
pub mod Cursor
pub mod Codec
pub mod Decode
pub mod Blocks
pub mod Mobileye
pub mod EventNames
pub mod Report
pub mod Kinds
pub mod Header
pub mod Ascii
pub mod Parser
pub mod Registry
pub mod Connections
