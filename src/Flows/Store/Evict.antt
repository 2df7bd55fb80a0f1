-- ===== src/Flows/Store/Evict.antt =====
-- Deadlines and eviction (deadline_of, sweep, enforce_max_streams, compact_lru and evict of
-- crates/pktflow-flows/src/store.rs). A loop that pops a heap runs on fuel.
use pktflow.Prelude.{
  ℕ, zero, suc, ◌+◌, ◌-◌, ◌*◌, List, [], ◌∷◌, ◌++◌, ◌&&◌, Option, none, some, length, get_elem?,
  set, min, leb, ltb, ◌==◌, string_eq, without, if◌then◌else◌,
}
use pktflow.Prelude.Map
use pktflow.Prelude.Words.{add64, add32}
use pktflow.Core.Packet.{SystemTime}
use pktflow.Flows.Store.{
  StreamId, stream_id_eq, CloseReason, protocol_close, idle_timeout, lru_evicted, no_eviction, live,
  Stream, Slot, IndexKey, index_key_eq, Recency, Aggregator, get, modify,
}
use pktflow.Flows.Store.Create.{push_heap, push_expiry, push_lru, recency_le}
use pktflow.Flows.Store.Condense.{condense_evict}

-- `deadline_of`
unfoldable pub deadline_of : Aggregator → StreamId → Option SystemTime
unfolding get
deadline_of a id = elim a.config.eviction [
  | no_eviction ↦ none
  | live idle linger max_streams ↦ elim (get a id) [
    | none ↦ none
    | some s ↦ some (elim s.close_eligible_since [
      | none ↦ s.last_seen + idle
      | some entered ↦ min (s.last_seen + idle) (entered + linger)
    ])
  ]
]

-- The stream of a handle, taken out of its slot, whose generation is bumped.
unfoldable pub take_slot : List Slot → StreamId → Option (Stream × List Slot)
take_slot slots id = elim (get_elem? slots id.index) [
  | none ↦ none
  | some slot ↦
      if slot.generation == id.generation
      then (elim slot.stream [
        | none ↦ none
        | some s ↦
            some (
              s,
              set slots id.index (record { generation = add32 slot.generation 1; stream = none }),
            )
      ])
      else none
]

abbrev pub stats_bytes : Stream → ℕ
stats_bytes s = add64 s.stats.0.bytes s.stats.1.bytes

-- The counters behind the removal of a stream.
unfoldable pub uncount : Aggregator → Stream → List Slot → ℕ → Aggregator
unfolding Map.get Map.insert
uncount a s slots index = record a {
  slots = slots;
  free = index ∷ a.free;
  live_count = a.live_count - 1;
  live_per_protocol = elim (Map.get s.protocol a.live_per_protocol) [
    | none ↦ a.live_per_protocol
    | some n ↦ Map.insert s.protocol (n - 1) a.live_per_protocol
  ];
  live_bytes_per_protocol = elim (Map.get s.protocol a.live_bytes_per_protocol) [
    | none ↦ a.live_bytes_per_protocol
    | some n ↦ Map.insert s.protocol (n - stats_bytes s) a.live_bytes_per_protocol
  ];
}

-- The lookup index without a stream; an empty bucket goes.
unfoldable pub unindex : Aggregator → Stream → StreamId → Aggregator
unfolding Map.get Map.insert Map.remove
unindex a s id =
    let key : IndexKey = record {
      parent = s.parent;
      protocol = s.protocol;
      digest = a.hasher.key_hash s.key;
    } in
    elim (Map.get key a.index) [
      | none ↦ a
      | some bucket ↦ elim (without id bucket) [
        | [] ↦ record a { index = Map.remove key a.index }
        | i ∷ is ↦ record a { index = Map.insert key (i ∷ is) a.index }
      ]
    ]

abbrev pub drop_child : StreamId → Stream → Stream
drop_child id s = record s { children = without id s.children }

-- The parent may have become a leaf: it is entered in both heaps again.
unfoldable pub rearm : Aggregator → StreamId → Aggregator
unfolding deadline_of push_expiry push_lru get
rearm a p =
    let armed : Aggregator = elim (deadline_of a p) [
      | none ↦ a
      | some deadline ↦ push_expiry a deadline p
    ] in
    elim (get armed p) [ none ↦ armed | some s ↦ push_lru armed s.last_seen s.created_seq p ]

unfoldable pub unlink : Aggregator → Option StreamId → StreamId → Aggregator
unfolding rearm modify
unlink a none id = record a { roots = without id a.roots }
unlink a (some p) id = rearm (modify a p (drop_child id)) p

-- The call of the sink, where there is one.
unfoldable pub emit : Aggregator → Stream → CloseReason → Aggregator
emit a s reason =
    if a.config.sink
    then record a {
      emitted =
          a.emitted ++ record { stream = record s { closed = some reason }; reason = reason } ∷ [];
    }
    else a

-- `evict`
unfoldable pub evict : Aggregator → StreamId → CloseReason → Aggregator
unfolding take_slot uncount condense_evict unindex unlink emit
evict a id reason = elim (take_slot a.slots id) [
  | none ↦ a
  | some (s, slots) ↦
      emit (unlink (unindex (condense_evict (uncount a s slots id.index) s) s id) s.parent id) s
        reason
]

-- Why a due stream closes.
unfoldable pub sweep_reason : Stream → ℕ → SystemTime → CloseReason
sweep_reason s linger now = elim s.close_eligible_since [
  | none ↦ idle_timeout
  | some entered ↦ if leb (entered + linger) now then protocol_close else idle_timeout
]

-- What the sweep does with a due entry that it has popped.
unfoldable pub sweep_entry : Aggregator → StreamId → ℕ → Aggregator
unfolding deadline_of push_expiry get sweep_reason evict
sweep_entry a id linger = elim (deadline_of a id) [
  | none ↦ a
  | some actual ↦ if ltb a.clock actual then push_expiry a actual id else elim (get a id) [
    | none ↦ a
    | some s ↦ elim s.children [ [] ↦ evict a id (sweep_reason s linger a.clock) | c ∷ cs ↦ a ]
  ]
]

-- The loop of `sweep`
unfoldable pub sweep_on : ℕ → Aggregator → ℕ → Aggregator
unfolding sweep_entry
sweep_on zero a linger = a
sweep_on (suc fuel) a linger = elim a.expiry [
  | [] ↦ a
  | (deadline, id) ∷ rest ↦
      let next = sweep_on fuel (sweep_entry (record a { expiry = rest }) id linger) linger in
      if ltb a.clock deadline then a else next
]

-- The entries that a sweep can pop: one for each of the heap, and one for each parent it re-arms.
abbrev pub sweep_fuel : Aggregator → ℕ
sweep_fuel a = length a.expiry + length a.slots + 1

-- `sweep`
unfoldable pub sweep : Aggregator → Aggregator
unfolding sweep_on
sweep a = elim a.config.eviction [
  | no_eviction ↦ a
  | live idle linger max_streams ↦ sweep_on (sweep_fuel a) a linger
]

-- What `enforce_max_streams` does with an entry that it has popped.
unfoldable pub recency_entry : Aggregator → SystemTime → ℕ → StreamId → Aggregator
unfolding get push_lru evict
recency_entry a seen seq id = elim (get a id) [
  | none ↦ a
  | some s ↦ elim s.children [
    | c ∷ cs ↦ a
    | [] ↦
        if (s.last_seen == seen) && (s.created_seq == seq)
        then evict a id lru_evicted
        else push_lru a s.last_seen s.created_seq id
  ]
]

unfoldable pub enforce_on : ℕ → Aggregator → ℕ → Aggregator
unfolding recency_entry
enforce_on zero a max_streams = a
enforce_on (suc fuel) a max_streams = elim a.lru [
  | [] ↦ a
  | (seen, seq, id) ∷ rest ↦
      let next =
        enforce_on fuel (recency_entry (record a { lru = rest }) seen seq id) max_streams in
      if leb a.live_count max_streams then a else next
]

-- An entry is popped at most twice, and an eviction adds at most one.
abbrev pub enforce_fuel : Aggregator → ℕ
enforce_fuel a = 2 * length a.lru + length a.slots + 1

-- `enforce_max_streams`
unfoldable pub enforce_max_streams : Aggregator → Aggregator
unfolding enforce_on
enforce_max_streams a = elim a.config.eviction [
  | no_eviction ↦ a
  | live idle linger max_streams ↦ enforce_on (enforce_fuel a) a max_streams
]

unfoldable pub leaf_heap : List Slot → List Recency
unfolding push_heap recency_le
leaf_heap [] = []
leaf_heap (slot ∷ slots) =
    let rest = leaf_heap slots in
    elim slot.stream [
      | none ↦ rest
      | some s ↦ elim s.children [
        | [] ↦ push_heap recency_le (s.last_seen, s.created_seq, s.id) rest
        | c ∷ cs ↦ rest
      ]
    ]

-- `compact_lru`
unfoldable pub compact_lru : Aggregator → Aggregator
unfolding leaf_heap
compact_lru a =
    if leb (length a.lru) (2 * a.live_count + 1024) then a else record a { lru = leaf_heap a.slots }
