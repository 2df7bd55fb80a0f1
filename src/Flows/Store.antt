-- ===== src/Flows/Store.antt =====
-- The stream store (crates/pktflow-flows/src/store.rs): its state, and the lookups by handle. An
-- `Arc<Stream>` is a stream, since `Arc::make_mut` copies a record that a snapshot shares. The binary
-- heaps are lists in ascending order, `free` has its last element at the head, and the standard
-- library's hashers are the functions of a `Hasher`.
pub mod Create
pub mod Evict
pub mod Finish
pub mod Candidates
pub mod Condense
pub mod Resolve
pub mod Ingest
pub mod Query
pub mod Snapshot
pub mod Lookup
pub mod Slots
pub mod Handles
pub mod Closing
pub mod Conserved
pub mod Merge
pub mod Occupancy
pub mod Sweep
pub mod Staleness
pub mod Cap
use pktflow.Prelude.{
  ℕ, zero, suc, ◌+◌, List, [], ◌∷◌, Bool, true, false, Option, none, some, get_elem?, set, ◌==◌, Eq,
  ℕ_discrete, String-discrete, Bytes-discrete, if◌then◌else◌, String,
}
use pktflow.Prelude.Map.{Map}
use pktflow.Core.Value.{FieldName, FieldMap}
use pktflow.Core.Error.{StopClass, clean, unknown_payload, malformed, suspicious}
use pktflow.Core.Packet.{ProtocolName, SystemTime}
use pktflow.Core.Stream.{FlowKey, PacketDirection, a_to_b, b_to_a, StateName}
use pktflow.Core.Engine.{Engine}
use pktflow.Flows.Key.{KeyBuf}
use pktflow.Flows.Rollup.{RollupSet}
use pktflow.Flows.Unknown.{UnknownRegistry, UnknownRegistryConfig, empty_registry, default_config}

pub record StreamId : Type 0 where
  pub index : ℕ
  pub generation : ℕ

unfoldable pub StreamId-discrete : Discrete StreamId
unfolding ℕ_discrete
StreamId-discrete = hlevel ℕ_discrete

instance abbrev pub stream_id_eq : Eq StreamId
stream_id_eq = record { dec = StreamId-discrete }

pub data CloseReason : Type 0 where
  protocol_close idle_timeout lru_evicted capture_end : CloseReason

pub data EvictionPolicy : Type 0 where
  no_eviction : EvictionPolicy
  live : (idle_timeout close_linger max_streams : ℕ) → EvictionPolicy

-- `sink` says whether there is a sink.
pub record AggregatorConfig : Type 0 where
  pub eviction : EvictionPolicy
  pub sink : Bool
  pub condense_threshold : ℕ
  pub rollup_series_default_cap : ℕ
  pub rollup_series_max_cap : Option ℕ
  pub unknown : UnknownRegistryConfig

abbrev pub default_aggregator_config : AggregatorConfig
default_aggregator_config = record {
  eviction = no_eviction;
  sink = false;
  condense_threshold = 256;
  rollup_series_default_cap = 1024;
  rollup_series_max_cap = none;
  unknown = default_config;
}

pub record DirStats : Type 0 where
  pub packets : ℕ
  pub bytes : ℕ

abbrev pub no_stats : DirStats
no_stats = record { packets = 0; bytes = 0 }

pub record CondensedInfo : Type 0 where
  pub member_flows : ℕ
  pub ephemeral_field : FieldName
  pub overflow : Bool

pub record Stream : Type 0 where
  pub id : StreamId
  pub protocol : ProtocolName
  pub key : FlowKey
  pub key_fields : FieldMap
  pub parent : Option StreamId
  pub children : List StreamId
  pub initiator : PacketDirection
  pub first_seen : SystemTime
  pub last_seen : SystemTime
  pub stats : DirStats × DirStats
  pub opaque_bytes : ℕ
  pub state : Option StateName
  pub rollups : RollupSet
  pub closed : Option CloseReason
  pub close_eligible : Bool
  pub close_eligible_since : Option SystemTime
  pub created_seq : ℕ
  pub condensed : Option CondensedInfo

pub record EvictedStream : Type 0 where
  pub stream : Stream
  pub reason : CloseReason

-- `STOP_CLASSES`
abbrev pub stop_class_list : List StopClass
stop_class_list = clean ∷ unknown_payload ∷ malformed ∷ suspicious ∷ []

unfoldable pub stop_class_index : StopClass → ℕ
stop_class_index clean = 0
stop_class_index unknown_payload = 1
stop_class_index malformed = 2
stop_class_index suspicious = 3

pub record Slot : Type 0 where
  pub generation : ℕ
  pub stream : Option Stream

pub record Totals : Type 0 where
  pub packets : ℕ
  pub bytes : ℕ
  pub streams_created : ℕ
  pub flows_condensed : ℕ
  pub key_errors : ℕ

-- `members` has no repetition.
pub record CondenseGroup : Type 0 where
  pub expanded : ℕ
  pub node : Option StreamId
  pub members : List ℕ

pub record IndexKey : Type 0 where
  pub parent : Option StreamId
  pub protocol : ProtocolName
  pub digest : ℕ

unfoldable pub IndexKey-discrete : Discrete IndexKey
unfolding ℕ_discrete String-discrete StreamId-discrete
IndexKey-discrete = hlevel (ℕ_discrete, String-discrete, StreamId-discrete)

instance abbrev pub index_key_eq : Eq IndexKey
index_key_eq = record { dec = IndexKey-discrete }

pub record CondenseKey : Type 0 where
  pub parent : Option StreamId
  pub protocol : ProtocolName
  pub anchor : KeyBuf

unfoldable pub CondenseKey-discrete : Discrete CondenseKey
unfolding String-discrete StreamId-discrete Bytes-discrete
CondenseKey-discrete = hlevel (String-discrete, StreamId-discrete, Bytes-discrete)

instance abbrev pub condense_key_eq : Eq CondenseKey
condense_key_eq = record { dec = CondenseKey-discrete }

-- `key_hash` and `encoding_digest`, with the hash functions that they call.
pub record Hasher : Type 0 where
  pub key_hash : FlowKey → ℕ
  pub encoding_digest : KeyBuf → ℕ

-- An entry of the expiry heap, and one of the LRU heap.
abbrev pub Expiry : Type 0
Expiry = SystemTime × StreamId

abbrev pub Recency : Type 0
Recency = SystemTime × ℕ × StreamId

-- `emitted` is what the sink has been called with.
pub record Aggregator : Type 0 where
  pub engine : Engine
  pub config : AggregatorConfig
  pub hasher : Hasher
  pub slots : List Slot
  pub index : Map IndexKey (List StreamId)
  pub roots : List StreamId
  pub totals : Totals
  pub clock : SystemTime
  pub next_seq : ℕ
  pub stop_classes : List ℕ
  pub created_per_protocol : Map ProtocolName ℕ
  pub live_per_protocol : Map ProtocolName ℕ
  pub live_bytes_per_protocol : Map ProtocolName ℕ
  pub expiry : List Expiry
  pub lru : List Recency
  pub free : List ℕ
  pub live_count : ℕ
  pub unknowns : UnknownRegistry
  pub condense : Map CondenseKey CondenseGroup
  pub emitted : List EvictedStream

-- `Aggregator::new`
unfoldable pub new : Engine → AggregatorConfig → Hasher → Aggregator
new engine config hasher = record {
  engine = engine;
  config = config;
  hasher = hasher;
  slots = [];
  index = [];
  roots = [];
  totals = record {
    packets = 0;
    bytes = 0;
    streams_created = 0;
    flows_condensed = 0;
    key_errors = 0;
  };
  clock = 0;
  next_seq = 0;
  stop_classes = 0 ∷ 0 ∷ 0 ∷ 0 ∷ [];
  created_per_protocol = [];
  live_per_protocol = [];
  live_bytes_per_protocol = [];
  expiry = [];
  lru = [];
  free = [];
  live_count = 0;
  unknowns = empty_registry;
  condense = [];
  emitted = [];
}

unfoldable pub get_slot : List Slot → StreamId → Option Stream
get_slot slots id = elim (get_elem? slots id.index) [
  | none ↦ none
  | some slot ↦ if slot.generation == id.generation then slot.stream else none
]

-- `Aggregator::get`
unfoldable pub get : Aggregator → StreamId → Option Stream
unfolding get_slot
get a id = get_slot a.slots id

unfoldable pub modify_slot : List Slot → StreamId → (Stream → Stream) → List Slot
modify_slot [] id f = []
modify_slot (slot ∷ slots) id f = elim id.index [
  | zero ↦
      if slot.generation == id.generation
      then (elim slot.stream [ none ↦ slot | some s ↦ record slot { stream = some (f s) } ]) ∷ slots
      else slot ∷ slots
  | suc i ↦ slot ∷ modify_slot slots (record id { index = i }) f
]

-- `if let Some(stream) = self.get_mut(id)`, with the changes made to the stream.
unfoldable pub modify : Aggregator → StreamId → (Stream → Stream) → Aggregator
unfolding modify_slot
modify a id f = record a { slots = modify_slot a.slots id f }
