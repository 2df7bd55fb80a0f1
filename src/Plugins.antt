-- ===== src/Plugins.antt =====
-- The protocol plugins (crates/pktflow-plugins).
pub mod Tcp
pub mod Udp
pub mod Link
pub mod Ip
pub mod Icmp
pub mod Tunnel
pub mod Encapsulation
pub mod Headers
pub mod Extensions
pub mod Wrapped
pub mod Within
pub mod Checksum
