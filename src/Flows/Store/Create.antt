-- ===== src/Flows/Store/Create.antt =====
-- Creation of a stream node, and the two heaps it is entered in (create_stream and
-- create_stream_raw of crates/pktflow-flows/src/store.rs).
use pktflow.Prelude.{
  ℕ, ◌+◌, ◌-◌, ◌^◌, List, [], ◌∷◌, ◌++◌, Bool, false, Option, none, some, min, length, get_elem?,
  set, string_eq, if◌then◌else◌,
}
use pktflow.Prelude.Map
use pktflow.Prelude.Words.{add64}
use pktflow.Core.Value
use pktflow.Core.Value.{FieldMap, empty}
use pktflow.Core.Packet.{ProtocolName, SystemTime, LayerRecord}
use pktflow.Core.Stream.{FlowKey, PacketDirection, StateName, KeyField, StreamIdentity}
use pktflow.Flows.Key.{slice_le}
use pktflow.Flows.Rollup.{RollupSet, new_set}
use pktflow.Flows.Store.{
  StreamId, no_eviction, live, CondensedInfo, Stream, no_stats, Slot, IndexKey, index_key_eq,
  Expiry, Recency, Aggregator, get, modify,
}

-- The derived orders of the heaps' tuples, ascending: `Reverse` on a max-heap.
unfoldable pub expiry_le : Expiry → Expiry → Bool
unfolding slice_le
expiry_le (t, x) (u, y) =
    slice_le (t ∷ x.index ∷ x.generation ∷ []) (u ∷ y.index ∷ y.generation ∷ [])

unfoldable pub recency_le : Recency → Recency → Bool
unfolding slice_le
recency_le (t, s, x) (u, r, y) =
    slice_le (t ∷ s ∷ x.index ∷ x.generation ∷ []) (u ∷ r ∷ y.index ∷ y.generation ∷ [])

-- `BinaryHeap::push`
unfoldable pub push_heap {ℓ} : {A : Type ℓ} → (A → A → Bool) → A → List A → List A
push_heap le x [] = x ∷ []
push_heap le x (y ∷ ys) = let rest = push_heap le x ys in if le x y then x ∷ y ∷ ys else y ∷ rest

unfoldable pub push_expiry : Aggregator → SystemTime → StreamId → Aggregator
unfolding push_heap expiry_le
push_expiry a deadline id = record a { expiry = push_heap expiry_le (deadline, id) a.expiry }

unfoldable pub push_lru : Aggregator → SystemTime → ℕ → StreamId → Aggregator
unfolding push_heap recency_le
push_lru a seen seq id = record a { lru = push_heap recency_le (seen, seq, id) a.lru }

-- The slot for a new stream, and the indices that stay free behind it.
unfoldable pub next_id : Aggregator → StreamId × List ℕ
next_id a = elim a.free [
  | [] ↦ (record { index = min (length a.slots) (2 ^ 32 - 1); generation = 0 }, [])
  | i ∷ free ↦ (
    record {
      index = i;
      generation = elim (get_elem? a.slots i) [ none ↦ 0 | some slot ↦ slot.generation ];
    },
    free,
  )
]

unfoldable pub fill_slot : List Slot → ℕ → Stream → List Slot
fill_slot slots i s = elim (get_elem? slots i) [
  | some slot ↦ set slots i (record slot { stream = some s })
  | none ↦ slots ++ record { generation = 0; stream = some s } ∷ []
]

unfoldable pub new_stream :
    StreamId
    → ℕ
    → Option StreamId
    → FlowKey
    → FieldMap
    → Option StateName
    → RollupSet
    → Option CondensedInfo
    → PacketDirection
    → ProtocolName
    → SystemTime
    → Stream
new_stream id seq parent key key_fields state rollups condensed dir protocol ts = record {
  id = id;
  protocol = protocol;
  key = key;
  key_fields = key_fields;
  parent = parent;
  children = [];
  initiator = dir;
  first_seen = ts;
  last_seen = ts;
  stats = (no_stats, no_stats);
  opaque_bytes = 0;
  state = state;
  rollups = rollups;
  closed = none;
  close_eligible = false;
  close_eligible_since = none;
  created_seq = seq;
  condensed = condensed;
}

abbrev pub push_child : StreamId → Stream → Stream
push_child id s = record s { children = s.children ++ id ∷ [] }

abbrev pub push_root : Aggregator → StreamId → Aggregator
push_root a id = record a { roots = a.roots ++ id ∷ [] }

-- The new node in its parent's children, or among the roots where the parent is not there.
unfoldable pub link : Aggregator → Option StreamId → StreamId → Aggregator
unfolding modify get
link a none id = push_root a id
link a (some p) id = elim (get a p) [ none ↦ push_root a id | some s ↦ modify a p (push_child id) ]

-- Under the live policy the node is entered in both heaps.
unfoldable pub arm_new : Aggregator → StreamId → ℕ → SystemTime → Aggregator
unfolding push_expiry push_lru
arm_new a id seq ts = elim a.config.eviction [
  | no_eviction ↦ a
  | live idle linger max_streams ↦ push_lru (push_expiry a (ts + idle) id) ts seq id
]

-- The slot, the counters and the index, before the hierarchy and the heaps.
unfoldable pub store_stream : Aggregator → Stream → List ℕ → Aggregator
unfolding Map.get_or Map.insert fill_slot
store_stream a s free =
    let bucket : IndexKey = record {
      parent = s.parent;
      protocol = s.protocol;
      digest = a.hasher.key_hash s.key;
    } in
    record a {
      slots = fill_slot a.slots s.id.index s;
      free = free;
      next_seq = add64 a.next_seq 1;
      totals = record a.totals { streams_created = add64 a.totals.streams_created 1 };
      created_per_protocol =
          Map.insert s.protocol (add64 (Map.get_or s.protocol 0 a.created_per_protocol) 1)
            a.created_per_protocol;
      live_per_protocol =
          Map.insert s.protocol (add64 (Map.get_or s.protocol 0 a.live_per_protocol) 1)
            a.live_per_protocol;
      live_count = a.live_count + 1;
      index = Map.insert bucket (Map.get_or bucket [] a.index ++ s.id ∷ []) a.index;
    }

-- `create_stream_raw`
unfoldable pub create_stream_raw :
    Aggregator
    → Option StreamId
    → FlowKey
    → FieldMap
    → Option StateName
    → RollupSet
    → Option CondensedInfo
    → PacketDirection
    → ProtocolName
    → SystemTime
    → Aggregator × StreamId
unfolding next_id new_stream store_stream link arm_new
create_stream_raw a parent key key_fields state rollups condensed dir protocol ts =
    let (id, free) = next_id a in
    let s =
      new_stream id a.next_seq parent key key_fields state rollups condensed dir protocol ts in
    (arm_new (link (store_stream a s free) parent id) id a.next_seq ts, id)

-- A field of the layer, where it is there, among the display fields.
unfoldable pub copy_field : FieldMap → FieldMap → Value.FieldName → FieldMap
unfolding Value.get Value.insert
copy_field fields out name = elim (Value.get fields name) [
  | none ↦ out
  | some v ↦ Value.insert out name v
]

unfoldable pub display_fields : FieldMap → List KeyField → FieldMap → FieldMap
unfolding copy_field
display_fields fields [] out = out
display_fields fields (kf ∷ kfs) out =
    let first = copy_field fields out kf.a in
    display_fields fields kfs (elim kf.b [ none ↦ first | some b ↦ copy_field fields first b ])

-- `create_stream`, which the code calls only for a node that is not condensed.
unfoldable pub create_stream :
    Aggregator
    → Option StreamId
    → FlowKey
    → StreamIdentity
    → LayerRecord
    → PacketDirection
    → SystemTime
    → Aggregator × StreamId
unfolding display_fields create_stream_raw new_set
create_stream a parent key identity layer dir ts =
    create_stream_raw a parent key (display_fields layer.fields identity.key empty)
      (elim identity.lifecycle [ none ↦ none | some l ↦ some l.initial ])
      (new_set identity.rollups a.config.rollup_series_default_cap a.config.rollup_series_max_cap)
      none dir layer.protocol ts
