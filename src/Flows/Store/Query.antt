-- ===== src/Flows/Store/Query.antt =====
-- The queries of the store (roots to snapshot of crates/pktflow-flows/src/store.rs).
use pktflow.Prelude.{
  ℕ, List, [], ◌∷◌, ◌++◌, none, some, min, max, length, leb, ◌≟◌, string_eq, if◌then◌else◌,
}
use pktflow.Prelude.Words.{add64}
use pktflow.Core.Value.{FieldMap}
use pktflow.Core.Packet.{ProtocolName, SystemTime}
use pktflow.Core.Stream.{FlowKey, flow_key_eq}
use pktflow.Flows.Store.{StreamId, DirStats, Stream, Slot, Aggregator, get}

-- `filter_map` of a list of handles through the lookup.
unfoldable pub resolve_ids : Aggregator → List StreamId → List Stream
unfolding get
resolve_ids a [] = []
resolve_ids a (id ∷ ids) = elim (get a id) [
  | none ↦ resolve_ids a ids
  | some s ↦ s ∷ resolve_ids a ids
]

-- `roots`
unfoldable pub root_streams : Aggregator → List Stream
unfolding resolve_ids
root_streams a = resolve_ids a a.roots

-- `children`
unfoldable pub child_streams : Aggregator → StreamId → List Stream
unfolding get resolve_ids
child_streams a id = elim (get a id) [ none ↦ [] | some s ↦ resolve_ids a s.children ]

unfoldable pub occupants : List Slot → List Stream
occupants [] = []
occupants (slot ∷ slots) = elim slot.stream [
  | none ↦ occupants slots
  | some s ↦ s ∷ occupants slots
]

-- `streams`, in the order of the slots.
unfoldable pub streams : Aggregator → List Stream
unfolding occupants
streams a = occupants a.slots

-- `len`
unfoldable pub live_streams : Aggregator → ℕ
unfolding streams
live_streams a = length (streams a)

-- `sort_by_key(|s| s.created_seq)`, which is stable.
unfoldable pub insert_by_seq : Stream → List Stream → List Stream
insert_by_seq s [] = s ∷ []
insert_by_seq s (t ∷ ts) =
    let rest = insert_by_seq s ts in
    if leb s.created_seq t.created_seq then s ∷ t ∷ ts else t ∷ rest

unfoldable pub sort_by_seq : List Stream → List Stream
unfolding insert_by_seq
sort_by_seq [] = []
sort_by_seq (s ∷ ss) = insert_by_seq s (sort_by_seq ss)

unfoldable pub of_protocol : ProtocolName → List Stream → List Stream
of_protocol p [] = []
of_protocol p (s ∷ ss) = let rest = of_protocol p ss in if s.protocol ≟ p then s ∷ rest else rest

-- `at_layer`
unfoldable pub at_layer : Aggregator → ProtocolName → List Stream
unfolding streams of_protocol sort_by_seq
at_layer a p = sort_by_seq (of_protocol p (streams a))

pub record MergedStreamView : Type 0 where
  pub protocol : ProtocolName
  pub key : FlowKey
  pub key_fields : FieldMap
  pub stats : DirStats × DirStats
  pub first_seen : SystemTime
  pub last_seen : SystemTime
  pub nodes : List StreamId

abbrev pub add_stats : DirStats → DirStats → DirStats
add_stats x y = record { packets = add64 x.packets y.packets; bytes = add64 x.bytes y.bytes }

abbrev pub merge_row : MergedStreamView → Stream → MergedStreamView
merge_row row s = record row {
  stats = (add_stats row.stats.0 s.stats.0, add_stats row.stats.1 s.stats.1);
  first_seen = min row.first_seen s.first_seen;
  last_seen = max row.last_seen s.last_seen;
  nodes = row.nodes ++ s.id ∷ [];
}

abbrev pub new_row : Stream → MergedStreamView
new_row s = record {
  protocol = s.protocol;
  key = s.key;
  key_fields = s.key_fields;
  stats = s.stats;
  first_seen = s.first_seen;
  last_seen = s.last_seen;
  nodes = s.id ∷ [];
}

-- A node is added to the first row of its key, or makes a row behind the others.
unfoldable pub merge_node : List MergedStreamView → Stream → List MergedStreamView
merge_node [] s = new_row s ∷ []
merge_node (row ∷ rows) s =
    let rest = merge_node rows s in if row.key ≟ s.key then merge_row row s ∷ rows else row ∷ rest

unfoldable pub merge_nodes : List MergedStreamView → List Stream → List MergedStreamView
unfolding merge_node
merge_nodes rows [] = rows
merge_nodes rows (s ∷ ss) = merge_nodes (merge_node rows s) ss

-- `at_layer_merged`
unfoldable pub at_layer_merged : Aggregator → ProtocolName → List MergedStreamView
unfolding at_layer merge_nodes
at_layer_merged a p = merge_nodes [] (at_layer a p)
