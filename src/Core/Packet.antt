-- ===== src/Core/Packet.antt =====
-- Layer records, packets and the diagnostics that ride on them (crates/pktflow-core/src/packet.rs,
-- and the types of diagnostics.rs). A timestamp is the number of nanoseconds since the epoch.
use pktflow.Prelude.{ℕ, List, String, Option}
use pktflow.Core.Value.{FieldMap}
use pktflow.Core.Route.{RouteId}
use pktflow.Core.Error.{StopReason}

abbrev pub ProtocolName : Type 0
ProtocolName = String

abbrev pub SystemTime : Type 0
SystemTime = ℕ

pub record PacketMeta : Type 0 where
  pub timestamp : SystemTime
  pub caplen : ℕ
  pub origlen : ℕ
  pub link_type : ℕ

pub record LayerRecord : Type 0 where
  pub protocol : ProtocolName
  pub offset : ℕ
  pub header_len : ℕ
  pub fields : FieldMap

-- Why no plugin took the bytes, and after which layer.
pub data UnknownContext : Type 0 where
  unclaimed_route : (predecessor : ProtocolName) (route : RouteId) → UnknownContext
  no_heuristic_winner : (predecessor : ProtocolName) → UnknownContext

-- A near miss is a plugin's name with its confidence.
pub record UnknownDiagnostics : Type 0 where
  pub context : UnknownContext
  pub near_misses : List (ProtocolName × ℕ)
  pub sample : List ℕ

pub record DissectedPacket : Type 0 where
  pub meta : PacketMeta
  pub layers : List LayerRecord
  pub stop : StopReason
  pub opaque_len : ℕ
  pub unknown : Option UnknownDiagnostics
