-- ===== src/Flows/Store/Ingest.antt =====
-- The per-packet path of the store (ingest of crates/pktflow-flows/src/store.rs).
use pktflow.Prelude.{
  ℕ, ◌+◌, ◌-◌, ◌^◌, List, [], ◌∷◌, Bool, false, not, ◌&&◌, Option, none, some, min, max, get_elem?,
  set, string_eq, contains, if◌then◌else◌,
}
use pktflow.Prelude.Map
use pktflow.Prelude.Result.{ok, err}
use pktflow.Prelude.Words.{add64}
use pktflow.Core.Value.{FieldMap}
use pktflow.Core.Error.{class}
use pktflow.Core.Packet.{SystemTime, LayerRecord, DissectedPacket}
use pktflow.Core.Stream.{
  FlowKey, flow_key_eq, PacketDirection, a_to_b, b_to_a, LifecycleSpec, StreamIdentity,
  CondenseSpec,
}
use pktflow.Core.Engine.{plugin_by_name}
use pktflow.Flows.Key.{flow_key}
use pktflow.Flows.Rollup
use pktflow.Flows.Unknown
use pktflow.Flows.Unknown.{EndpointKey}
use pktflow.Flows.Store.{
  StreamId, no_eviction, live, DirStats, Stream, condense_key_eq, index_key_eq, Aggregator,
  stop_class_index, get, modify,
}
use pktflow.Flows.Store.Create.{push_expiry}
use pktflow.Flows.Store.Evict.{sweep, compact_lru, enforce_max_streams}
use pktflow.Flows.Store.Resolve.{get_or_insert}

abbrev pub count_packet : DirStats → ℕ → DirStats
count_packet s bytes = record { packets = add64 s.packets 1; bytes = add64 s.bytes bytes }

-- `stream.stats[dir_index(dir)]`, with the packet counted.
unfoldable pub bump_stats : DirStats × DirStats → PacketDirection → ℕ → DirStats × DirStats
bump_stats (x, y) a_to_b bytes = (count_packet x bytes, y)
bump_stats (x, y) b_to_a bytes = (x, count_packet y bytes)

-- The lifecycle step, where there is one; the linger is anchored where the closed state is entered.
unfoldable pub advance_state :
    Option LifecycleSpec → FieldMap → PacketDirection → SystemTime → Stream → Stream
advance_state none fields dir ts s = s
advance_state (some spec) fields dir ts s = elim s.state [
  | none ↦ s
  | some current ↦
      let next = spec.advance fields current dir in
      let eligible = contains spec.closed_states next in
      record s {
        state = some next;
        close_eligible = eligible;
        close_eligible_since =
            if eligible
            then (if s.close_eligible then s.close_eligible_since else some ts)
            else none;
      }
]

-- One packet in a stream: time, stats, state and rollups.
unfoldable pub update_stream :
    StreamIdentity → FieldMap → PacketDirection → SystemTime → ℕ → Stream → Stream
unfolding bump_stats advance_state Rollup.apply
update_stream identity fields dir ts bytes s =
    let counted : Stream = record s { last_seen = ts; stats = bump_stats s.stats dir bytes } in
    let moved = advance_state identity.lifecycle fields dir ts counted in
    record moved { rollups = Rollup.apply moved.rollups fields moved.first_seen ts dir }

-- Whether this packet has brought the stream into a closed state.
unfoldable pub became_eligible : Option Stream → Option Stream → Bool
became_eligible none after = false
became_eligible (some s) none = false
became_eligible (some s) (some t) = not s.close_eligible && t.close_eligible

unfoldable pub arm_close : Aggregator → StreamId → SystemTime → Aggregator
unfolding push_expiry
arm_close a id ts = elim a.config.eviction [
  | no_eviction ↦ a
  | live idle linger max_streams ↦ push_expiry a (ts + linger) id
]

-- A layer with its identity and its key: the node, its update, and the node as the next parent.
unfoldable pub ingest_keyed :
    Aggregator
    → Option StreamId
    → FlowKey
    → StreamIdentity
    → Option CondenseSpec
    → LayerRecord
    → PacketDirection
    → SystemTime
    → ℕ
    → Aggregator × StreamId
unfolding get_or_insert Map.get_or Map.insert update_stream modify get became_eligible arm_close
ingest_keyed a parent key identity condense layer dir ts bytes =
    let placed = get_or_insert a parent key identity condense layer dir ts in
    let b = placed.0 in
    let id = placed.1 in
    let c : Aggregator = record b {
      live_bytes_per_protocol =
          Map.insert layer.protocol
            (add64 (Map.get_or layer.protocol 0 b.live_bytes_per_protocol) bytes)
            b.live_bytes_per_protocol;
    } in
    let d = modify c id (update_stream identity layer.fields (placed.2) ts bytes) in
    ((if became_eligible (get c id) (get d id) then arm_close d id ts else d), id)

abbrev pub count_key_error : Aggregator → Aggregator
count_key_error a = record a {
  totals = record a.totals { key_errors = add64 a.totals.key_errors 1 };
}

-- The walk over the layers: the store, the innermost node and the last endpoint.
pub record Walked : Type 0 where
  pub store : Aggregator
  pub parent : Option StreamId
  pub last_endpoint : Option EndpointKey

-- A layer without a plugin or an identity is skipped, and so is one whose key fails.
unfoldable pub ingest_layer : Walked → LayerRecord → SystemTime → ℕ → Walked
unfolding plugin_by_name flow_key ingest_keyed
ingest_layer w layer ts bytes = elim (plugin_by_name w.store.engine layer.protocol) [
  | none ↦ w
  | some plugin ↦ elim plugin.stream_identity [
    | none ↦ w
    | some identity ↦ elim (flow_key identity layer.fields) [
      | err e ↦ record w { store = count_key_error w.store }
      | ok (key, dir) ↦
          let (b, id) =
            ingest_keyed w.store w.parent key identity plugin.condense layer dir ts bytes in
          record {
            store = b;
            parent = some id;
            last_endpoint = some (record { protocol = layer.protocol; key = key });
          }
    ]
  ]
]

unfoldable pub ingest_layers : Walked → List LayerRecord → SystemTime → ℕ → Walked
unfolding ingest_layer
ingest_layers w [] ts bytes = w
ingest_layers w (l ∷ ls) ts bytes = ingest_layers (ingest_layer w l ts bytes) ls ts bytes

-- `self.stop_classes[i] += 1`
unfoldable pub bump_class : List ℕ → ℕ → List ℕ
bump_class counts i = elim (get_elem? counts i) [
  | none ↦ counts
  | some n ↦ set counts i (add64 n 1)
]

-- The clock and the totals of a packet.
unfoldable pub count_totals : Aggregator → DissectedPacket → Aggregator
unfolding bump_class stop_class_index class
count_totals a pkt = record a {
  clock = max a.clock pkt.meta.timestamp;
  totals = record a.totals {
    packets = add64 a.totals.packets 1;
    bytes = add64 a.totals.bytes pkt.meta.origlen;
  };
  stop_classes = bump_class a.stop_classes (stop_class_index (class pkt.stop));
}

-- Unparsed payload belongs to the innermost node.
unfoldable pub add_opaque : Aggregator → Option StreamId → ℕ → Aggregator
unfolding modify
add_opaque a none len = a
add_opaque a (some id) len = modify a id (λ s. record s { opaque_bytes = add64 s.opaque_bytes len })

unfoldable pub note_unknown : Aggregator → DissectedPacket → Option EndpointKey → Aggregator
unfolding Unknown.ingest
note_unknown a pkt endpoint = elim pkt.unknown [
  | none ↦ a
  | some diag ↦ record a {
    unknowns =
        Unknown.ingest a.unknowns diag (min pkt.opaque_len (2 ^ 32 - 1)) pkt.meta.timestamp endpoint
          a.config.unknown;
  }
]

-- `ingest`
unfoldable pub ingest : Aggregator → DissectedPacket → Aggregator
unfolding count_totals sweep compact_lru ingest_layers add_opaque note_unknown enforce_max_streams
ingest a pkt =
    let ready = compact_lru (sweep (count_totals a pkt)) in
    let w =
      ingest_layers (record { store = ready; parent = none; last_endpoint = none }) pkt.layers
        pkt.meta.timestamp pkt.meta.origlen in
    enforce_max_streams
      (note_unknown (add_opaque w.store w.parent pkt.opaque_len) pkt w.last_endpoint)
