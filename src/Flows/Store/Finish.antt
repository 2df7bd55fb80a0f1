-- ===== src/Flows/Store/Finish.antt =====
-- The end of a capture (finish of crates/pktflow-flows/src/store.rs).
use pktflow.Prelude.{
  ℕ, zero, suc, List, [], ◌∷◌, Bool, ◌&&◌, ◌||◌, Option, none, some, length, leb, ltb, ◌==◌,
  string_eq,
}
use pktflow.Flows.Store.{
  StreamId, stream_id_eq, capture_end, no_eviction, live, Slot, index_key_eq, Aggregator, get,
  modify,
}
use pktflow.Flows.Store.Create.{push_heap}
use pktflow.Flows.Store.Evict.{emit, evict}

-- The depth of a stream, on as much fuel as there are slots.
unfoldable pub depth_of : ℕ → Aggregator → Option StreamId → ℕ
unfolding get
depth_of zero a cursor = 0
depth_of (suc fuel) a none = 0
depth_of (suc fuel) a (some p) = elim (get a p) [
  | none ↦ 1
  | some s ↦ suc (depth_of fuel a s.parent)
]

-- Deeper nodes first, creation order within a depth; `sort_by_key` is stable.
abbrev pub Closing : Type 0
Closing = ℕ × ℕ × StreamId

unfoldable pub closes_before : Closing → Closing → Bool
closes_before (d, s, x) (e, r, y) = ltb e d || ((d == e) && leb s r)

unfoldable pub close_order : List Slot → Aggregator → List Closing
unfolding push_heap closes_before depth_of
close_order [] a = []
close_order (slot ∷ slots) a =
    let rest = close_order slots a in
    elim slot.stream [
      | none ↦ rest
      | some s ↦
          push_heap closes_before (depth_of (suc (length a.slots)) a s.parent, s.created_seq, s.id)
            rest
    ]

-- The end of one stream.
unfoldable pub finish_stream : Aggregator → StreamId → Aggregator
unfolding evict modify get emit
finish_stream a id = elim a.config.eviction [
  | live idle linger max_streams ↦ evict a id capture_end
  | no_eviction ↦ elim (get a id) [
    | none ↦ a
    | some s ↦ emit (modify a id (λ t. record t { closed = some capture_end })) s capture_end
  ]
]

unfoldable pub finish_all : List Closing → Aggregator → Aggregator
unfolding finish_stream
finish_all [] a = a
finish_all ((depth, seq, id) ∷ rest) a = finish_all rest (finish_stream a id)

-- `finish`
unfoldable pub finish : Aggregator → Aggregator
unfolding close_order finish_all
finish a = finish_all (close_order a.slots a) a
