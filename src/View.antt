-- ===== src/View.antt =====
-- What the user interfaces share (crates/pktflow-view).
pub mod Fmt
pub mod StreamView
pub mod Query
pub mod Index
