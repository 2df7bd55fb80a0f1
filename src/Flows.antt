-- ===== src/Flows.antt =====
-- The stream aggregator (crates/pktflow-flows).
pub mod Key
pub mod Rollup
pub mod Unknown
pub mod Store
