-- ===== src/Tests/Stores.antt =====
-- Examples for the stream store, on the small engine.
use pktflow.Prelude.{
  ◌≤◌, ◌⊎◌, ℕ, ◌%◌, ◌^◌, ◌≡◌, refl, [], ◌∷◌, true, none, some, length, arith, String-discrete,
  Bool-cases, ℕ_discrete,
}
use pktflow.Core.Value.{empty}
use pktflow.Core.Stream.{FlowKey, FlowKey-discrete, a_to_b, LifecycleSpec, StreamIdentity}
use pktflow.Flows.Store.{
  StreamId, IndexKey-discrete, live, capture_end, Stream, Aggregator, Hasher,
  default_aggregator_config, new, get,
}
use pktflow.Flows.Store.Create.{create_stream_raw, new_stream}
use pktflow.Flows.Store.Evict.{evict, sweep}
use pktflow.Flows.Store.Ingest.{update_stream}
use pktflow.Flows.Store.Resolve.{lookup}
use pktflow.Flows.Store.Query.{at_layer, at_layer_merged}
use pktflow.Flows.Store.Slots.{evict-get_other, without_child}
use pktflow.Flows.Store.Handles.{evict-create_stream_raw-get}
use pktflow.Flows.Store.Lookup.{lookup-key}
use pktflow.Flows.Store.Cap.{enforce_max_streams-ends}
use pktflow.Flows.Store.Evict.{enforce_max_streams}
use pktflow.Flows.Store.Sweep.{sweep-IsSwept, IsSwept}
use pktflow.Flows.Store.Closing.{update_stream-anchor, IsAnchored, anchor}
use pktflow.Flows.Store.Conserved.{bytes_ab, DistinctRows, node_total, row_total, stream_total}
use pktflow.Flows.Store.Merge.{Merged, rows_of, streams_of, at_layer_merged-conserves}
use pktflow.Tests.{network, pair_identity}

abbrev plain_hasher : Hasher
plain_hasher = record { key_hash = λ k. 0; encoding_digest = λ b. 0 }

abbrev id_of : ℕ → StreamId
id_of i = record { index = i; generation = 0 }

abbrev key_of_byte : ℕ → FlowKey
key_of_byte n = record { bytes = n ∷ [] }

abbrev conversation : ℕ → Stream
conversation i = new_stream (id_of i) i none (key_of_byte i) empty none [] none a_to_b "outer" 10

-- Two conversations whose keys have one hash.
abbrev store : Aggregator
store =
    record (new network
      (record default_aggregator_config { eviction = live 100 10 50; sink = true }) plain_hasher) {
        slots =
            record { generation = 0; stream = some (conversation 0) }
            ∷ record { generation = 0; stream = some (conversation 1) }
            ∷ [];
        index =
            (record { parent = none; protocol = "outer"; digest = 0 }, id_of 0 ∷ id_of 1 ∷ []) ∷ [];
        roots = id_of 0 ∷ id_of 1 ∷ [];
        clock = 200;
        live_count = 2;
        expiry = (110, id_of 0) ∷ (110, id_of 1) ∷ [];
      }

get_store :
    (get store (id_of 0) ≡ some (conversation 0)) × (get store (id_of 1) ≡ some (conversation 1))
unfolding get new
get_store = (refl, refl)

evict-create_stream_raw-get_example :
    (get (evict store (id_of 0) capture_end) (id_of 0) ≡ none)
    × (get
          ((create_stream_raw
            (evict store (id_of 0) capture_end)
            none
            (key_of_byte 7)
            empty
            none
            []
            none
            a_to_b
            "outer"
            11).0)
          (id_of 0)
        ≡ none)
evict-create_stream_raw-get_example =
    evict-create_stream_raw-get store (id_of 0) capture_end (conversation 0) none (key_of_byte 7)
      empty none [] none a_to_b "outer" 11 (get_store.0) (omega arith)

evict-get_other_example :
    get (evict store (id_of 0) capture_end) (id_of 1) ≡ (elim (get store (id_of 1)) [
      | none ↦ none
      | some t ↦ some (without_child (conversation 0).parent (id_of 0) (id_of 1) t)
    ])
evict-get_other_example =
    evict-get_other store (id_of 0) capture_end (conversation 0) (id_of 1) (get_store.0)
      (omega arith)

lookup_store : lookup store none "outer" (key_of_byte 1) ≡ some (id_of 1)
unfolding lookup new IndexKey-discrete FlowKey-discrete String-discrete ℕ_discrete Bool-cases
    new_stream
lookup_store = refl

lookup-key_example : (s : Stream) × (get store (id_of 1) ≡ some s) × (s.key ≡ key_of_byte 1)
lookup-key_example = lookup-key store none "outer" (key_of_byte 1) (id_of 1) lookup_store

sweep-IsSwept_example : IsSwept store.clock (sweep store).expiry
unfolding new
sweep-IsSwept_example = sweep-IsSwept store 100 10 50 refl

abbrev closing : LifecycleSpec
closing = record {
  initial = "open";
  advance = λ fields state dir. "closed";
  closed_states = "closed" ∷ [];
}

abbrev closing_identity : StreamIdentity
closing_identity = record pair_identity { lifecycle = some closing }

abbrev open_stream : Stream
open_stream = record (conversation 0) { state = some "open" }

update_stream-anchor_example :
    IsAnchored (update_stream closing_identity empty a_to_b 30 64 open_stream)
    × ((update_stream closing_identity empty a_to_b 30 64 open_stream).close_eligible_since
        ≡ anchor (some closing) empty a_to_b 30 (some "open") none)
unfolding IsAnchored new_stream
update_stream-anchor_example =
    update_stream-anchor closing_identity empty a_to_b 30 64 open_stream refl

at_layer_merged-conserves_example :
    Merged bytes_ab
      (streams_of (key_of_byte 1) (at_layer store "outer"))
      (rows_of (key_of_byte 1) (at_layer_merged store "outer"))
    × DistinctRows (at_layer_merged store "outer")
    × (node_total (at_layer_merged store "outer") ≡ length (at_layer store "outer"))
    × (row_total bytes_ab (at_layer_merged store "outer") % 2 ^ 64
        ≡ stream_total bytes_ab (at_layer store "outer") % 2 ^ 64)
at_layer_merged-conserves_example = at_layer_merged-conserves store "outer" bytes_ab (key_of_byte 1)

enforce_max_streams-ends_example :
    ((enforce_max_streams store).live_count ≤ 50) ⊎ ((enforce_max_streams store).lru ≡ [])
unfolding new
enforce_max_streams-ends_example = enforce_max_streams-ends store 100 10 50 refl
