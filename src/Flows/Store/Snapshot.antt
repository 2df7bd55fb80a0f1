-- ===== src/Flows/Store/Snapshot.antt =====
-- What other threads read of the store (summary and snapshot of crates/pktflow-flows/src/store.rs).
use pktflow.Prelude.{ℕ, List, [], ◌∷◌, Option, none, some, get_elem?, string_eq, if◌then◌else◌}
use pktflow.Prelude.Map
use pktflow.Prelude.Map.{Map}
use pktflow.Core.Error.{StopClass}
use pktflow.Core.Packet.{ProtocolName, SystemTime}
use pktflow.Flows.Unknown.{UnknownKey, UnknownGroup, group}
use pktflow.Flows.Unknown.Listing.{listed_groups, string_le}
use pktflow.Flows.Store.{StreamId, Stream, Aggregator, stop_class_list, stop_class_index}
use pktflow.Flows.Store.Query.{streams, sort_by_seq}

pub record ProtocolCounts : Type 0 where
  pub protocol : ProtocolName
  pub ever : ℕ
  pub live : ℕ
  pub bytes : ℕ

pub record AggregateSummary : Type 0 where
  pub packets : ℕ
  pub bytes : ℕ
  pub streams_created : ℕ
  pub streams_live : ℕ
  pub flows_condensed : ℕ
  pub key_errors : ℕ
  pub per_protocol : List ProtocolCounts
  pub stop_classes : List (StopClass × ℕ)

pub record AggregatorSnapshot : Type 0 where
  pub streams : List Stream
  pub roots : List StreamId
  pub summary : AggregateSummary
  pub clock : SystemTime
  pub unknowns : List UnknownGroup

unfoldable pub counts_of : Aggregator → ProtocolName → ℕ → ProtocolCounts
unfolding Map.get_or
counts_of a protocol ever = record {
  protocol = protocol;
  ever = ever;
  live = Map.get_or protocol 0 a.live_per_protocol;
  bytes = Map.get_or protocol 0 a.live_bytes_per_protocol;
}

-- `sort_by_key(|c| c.protocol)`
unfoldable pub insert_counts : ProtocolCounts → List ProtocolCounts → List ProtocolCounts
unfolding string_le
insert_counts c [] = c ∷ []
insert_counts c (d ∷ ds) =
    if string_le c.protocol d.protocol then c ∷ d ∷ ds else d ∷ insert_counts c ds

unfoldable pub sorted_counts : Aggregator → Map ProtocolName ℕ → List ProtocolCounts
unfolding counts_of insert_counts
sorted_counts a [] = []
sorted_counts a ((protocol, ever) ∷ rest) =
    insert_counts (counts_of a protocol ever) (sorted_counts a rest)

-- The counter of a class; the array has one for each.
abbrev class_count : List ℕ → StopClass → ℕ
class_count counters c = elim (get_elem? counters (stop_class_index c)) [ none ↦ 0 | some n ↦ n ]

unfoldable pub class_counts : List ℕ → List StopClass → List (StopClass × ℕ)
unfolding stop_class_index
class_counts counters [] = []
class_counts counters (c ∷ cs) = (c, class_count counters c) ∷ class_counts counters cs

-- `summary`
unfoldable pub summary : Aggregator → AggregateSummary
unfolding sorted_counts class_counts
summary a = record {
  packets = a.totals.packets;
  bytes = a.totals.bytes;
  streams_created = a.totals.streams_created;
  streams_live = a.live_count;
  flows_condensed = a.totals.flows_condensed;
  key_errors = a.totals.key_errors;
  per_protocol = sorted_counts a a.created_per_protocol;
  stop_classes = class_counts a.stop_classes stop_class_list;
}

-- `unknowns` and `unknown_group`
unfoldable pub unknowns : Aggregator → List UnknownGroup
unfolding listed_groups
unknowns a = listed_groups a.unknowns

unfoldable pub unknown_group : Aggregator → UnknownKey → Option UnknownGroup
unfolding group
unknown_group a key = group a.unknowns key

-- `snapshot`
unfoldable pub snapshot : Aggregator → AggregatorSnapshot
unfolding streams sort_by_seq summary unknowns
snapshot a = record {
  streams = sort_by_seq (streams a);
  roots = a.roots;
  summary = summary a;
  clock = a.clock;
  unknowns = unknowns a;
}
