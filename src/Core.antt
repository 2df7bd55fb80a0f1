-- ===== src/Core.antt =====
-- The dissection substrate (crates/pktflow-core).
pub mod Bytes
pub mod Value
pub mod Route
pub mod Error
pub mod Stream
pub mod Packet
pub mod Plugin
pub mod Engine
pub mod Router
pub mod Diagnostics
pub mod Parser
