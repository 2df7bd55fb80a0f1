-- ===== src/Tests.antt =====
-- A small engine and the packets that the examples run on.
pub mod Walks
pub mod Keys
pub mod Stores
pub mod Plugins
pub mod View
use pktflow.Prelude.{
  ℕ, List, [], ◌∷◌, ◌≡◌, refl, Option, none, some, Bool, true, false, String-discrete, Bool-cases,
  ℕ_discrete,
}
use pktflow.Prelude.Map
use pktflow.Prelude.Result.{Result, ok, err}
use pktflow.Core.Value
use pktflow.Core.Value.{FieldMap, empty, u64}
use pktflow.Core.Route.{RouteId, RouteId-discrete, link_type, ether_type}
use pktflow.Core.Error.{ParseError}
use pktflow.Core.Packet.{PacketMeta, LayerRecord}
use pktflow.Core.Stream.{KeyField, endpoint_sort, StreamIdentity}
use pktflow.Core.Plugin.{
  Plugin, ParseOpts, ParseCtx, ParsedLayer, Hint, route, terminal, unknown, full,
}
use pktflow.Core.Engine.{
  EngineBuilder, Engine, build, index_names, apply_overrides, no_collision, apply_unroutes, install,
  claim_all, claim, check_identities, check_key, key_field_ok, check_rollups, check_condenses,
  check_condense, has_component, probing, settle,
}

abbrev pub two_byte_header : Hint → List ℕ → ParseCtx → Result ParseError ParsedLayer
two_byte_header hint [] ctx = err (ParseError.malformed "short")
two_byte_header hint (a ∷ []) ctx = err (ParseError.malformed "short")
two_byte_header hint (a ∷ b ∷ rest) ctx = ok (record {
  header_len = 2;
  fields = record { entries = ("src", u64 a) ∷ ("dst", u64 b) ∷ [] };
  hint = hint;
})

abbrev pub pair : KeyField
pair = record { a = "src"; b = some "dst" }

abbrev pub pair_identity : StreamIdentity
pair_identity = record {
  key = pair ∷ [];
  canonicalize = endpoint_sort;
  lifecycle = none;
  rollups = [];
}

abbrev pub outer : Plugin
outer = record {
  name = "outer";
  parse = two_byte_header (route (ether_type 7));
  claims = link_type 1 ∷ [];
  expected_predecessors = [];
  has_probe = false;
  probe = λ bytes ctx. none;
  stream_identity = some pair_identity;
  condense = none;
}

abbrev pub inner : Plugin
inner = record {
  name = "inner";
  parse = two_byte_header terminal;
  claims = ether_type 7 ∷ [];
  expected_predecessors = "outer" ∷ [];
  has_probe = true;
  probe = λ bytes ctx. some 60;
  stream_identity = some pair_identity;
  condense = none;
}

abbrev pub builder : EngineBuilder
builder = record { plugins = outer ∷ inner ∷ []; overrides = []; unroutes = [] }

abbrev pub network : Engine
network = record {
  plugins = outer ∷ inner ∷ [];
  by_name = ("outer", 0) ∷ ("inner", 1) ∷ [];
  routes = (link_type 1, 0) ∷ (ether_type 7, 1) ∷ [];
  fallback_pool = 1 ∷ [];
}

pub network-build : build builder ≡ ok network
unfolding build index_names apply_overrides no_collision apply_unroutes install claim_all claim
    check_identities check_key key_field_ok check_rollups check_condenses check_condense
    has_component probing settle Map.get Map.insert Map.remove String-discrete Bool-cases
    RouteId-discrete ℕ_discrete
network-build = refl

abbrev pub packet_meta : PacketMeta
packet_meta = record { timestamp = 1000; caplen = 5; origlen = 5; link_type = 1 }

abbrev pub options : ParseOpts
options = record {
  depth = full;
  aggregation = true;
  max_layers = 8;
  entry = none;
  allow_entry_heuristics = false;
  diagnose_unknown = true;
}

abbrev pub packet : List ℕ
packet = 1 ∷ 2 ∷ 3 ∷ 4 ∷ 5 ∷ []

abbrev pub context_at_start : ParseCtx
context_at_start = record { layers = []; depth = full; meta = packet_meta }

-- Two plugins claim an id, and a manual `unroute` settles it.
abbrev pub rival : Plugin
rival = record inner { name = "rival" }

abbrev pub settled_builder : EngineBuilder
settled_builder = record {
  plugins = inner ∷ rival ∷ [];
  overrides = [];
  unroutes = ether_type 7 ∷ [];
}

abbrev pub settled_network : Engine
settled_network = record {
  plugins = inner ∷ rival ∷ [];
  by_name = ("inner", 0) ∷ ("rival", 1) ∷ [];
  routes = [];
  fallback_pool = 0 ∷ 1 ∷ [];
}

pub settled_network-build : build settled_builder ≡ ok settled_network
unfolding build index_names apply_overrides no_collision apply_unroutes install claim_all claim
    check_identities check_key key_field_ok check_rollups check_condenses check_condense
    has_component probing settle Map.get Map.insert Map.remove String-discrete Bool-cases
    RouteId-discrete ℕ_discrete
settled_network-build = refl
