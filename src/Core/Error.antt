-- ===== src/Core/Error.antt =====
-- Parse errors and stop reasons (crates/pktflow-core/src/error.rs).
use pktflow.Prelude.{ℕ, String}
use pktflow.Core.Bytes.{Truncated}
use pktflow.Core.Route.{RouteId}

pub data ParseError : Type 0 where
  truncated : Truncated → ParseError
  malformed : String → ParseError

-- Why dissection of a packet ended.
pub data StopReason : Type 0 where
  complete terminal : StopReason
  unclaimed_route : RouteId → StopReason
  unknown_hint : StopReason
  truncated : (needed have : ℕ) → StopReason
  plugin_error depth_cap : StopReason

pub data StopClass : Type 0 where
  clean unknown_payload malformed suspicious : StopClass

-- `StopReason::class`
unfoldable pub class : StopReason → StopClass
class complete = clean
class terminal = clean
class (unclaimed_route id) = unknown_payload
class unknown_hint = unknown_payload
class (StopReason.truncated needed have) = StopClass.malformed
class plugin_error = StopClass.malformed
class depth_cap = suspicious
