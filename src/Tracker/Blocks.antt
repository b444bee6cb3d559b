-- ===== src/Tracker/Blocks.antt =====
-- The blocks of a report that have a mask of their own, one module each, and the readings that
-- several of them share (src/tracker/parser/tracker-parser.service.ts and tracker-parser.types.ts).
pub mod Shared
pub mod Gnss
pub mod EventData
pub mod CanOne
pub mod CanTwo
pub mod Electric
pub mod CanThree
pub mod CanAdvanced
