-- ===== src/Starlink.antt =====
-- The StarLink side of the service (src/starlink/).
pub mod Splitter
pub mod Codec
pub mod Events
pub mod Pattern
pub mod Payload
pub mod Parser
pub mod Registry
pub mod Server
pub mod DeviceRows
pub mod ReportRows
pub mod Persistence
