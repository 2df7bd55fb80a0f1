-- ===== src/Core/Route.antt =====
-- Route identifiers (crates/pktflow-core/src/route.rs): ids with the id space they belong to.
use pktflow.Prelude.{ℕ, String, ℕ_discrete, String-discrete, Eq}

pub data RouteId : Type 0 where
  link_type ether_type ip_protocol udp_port tcp_port : ℕ → RouteId
  custom : String → ℕ → RouteId

unfoldable pub RouteId-discrete : Discrete RouteId
unfolding ℕ_discrete String-discrete
RouteId-discrete = hlevel (ℕ_discrete, String-discrete)

instance abbrev pub route_id_eq : Eq RouteId
route_id_eq = record { dec = RouteId-discrete }
