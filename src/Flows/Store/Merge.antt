-- ===== src/Flows/Store/Merge.antt =====
-- The rows of the merged view of a layer, key by key (at_layer_merged of
-- crates/pktflow-flows/src/store.rs).
use pktflow.Prelude.{
  ◌+◌, ◌%◌, ◌^◌, ◌≡◌, refl, ◌∙◌, List, [], ◌∷◌, ◌≟◌, length, sym, ◌++◌, min, max, arith,
  if◌then◌else◌, Bool-cases, inl, inr,
}
use pktflow.Core.Packet.{ProtocolName, SystemTime}
use pktflow.Core.Stream.{FlowKey, flow_key_eq}
use pktflow.Flows.Store.{Stream, Aggregator, StreamId}
use pktflow.Flows.Store.Query.{
  MergedStreamView, merge_node, merge_nodes, at_layer, at_layer_merged, merge_row, new_row,
}
use mathlib.Core.List.{append-nil, append_assoc}
use pktflow.Flows.Store.Conserved.{
  Counter, packets_ab, bytes_ab, packets_ba, bytes_ba, read_counter, row_total, stream_total,
  node_total, DistinctRows, merge_nodes-DistinctRows, merged-nodes, merged-total,
}

pub rows_of : FlowKey → List MergedStreamView → List MergedStreamView
rows_of k [] = []
rows_of k (r ∷ rs) = if r.key ≟ k then r ∷ rows_of k rs else rows_of k rs

pub streams_of : FlowKey → List Stream → List Stream
streams_of k [] = []
streams_of k (s ∷ ss) = if s.key ≟ k then s ∷ streams_of k ss else streams_of k ss

abbrev pub ids : List Stream → List StreamId
ids [] = []
ids (s ∷ ss) = s.id ∷ ids ss

abbrev pub earliest : SystemTime → List Stream → SystemTime
earliest t [] = t
earliest t (s ∷ ss) = earliest (min t s.first_seen) ss

abbrev pub latest : SystemTime → List Stream → SystemTime
latest t [] = t
latest t (s ∷ ss) = latest (max t s.last_seen) ss

-- A row that stands for the streams `s ∷ ss`.
pub record IsSumOf (c : Counter) (s : Stream) (ss : List Stream) (r : MergedStreamView)
    : Type 0 where
  pub protocol : r.protocol ≡ s.protocol
  pub key : r.key ≡ s.key
  pub key_fields : r.key_fields ≡ s.key_fields
  pub nodes : r.nodes ≡ s.id ∷ ids ss
  pub first_seen : r.first_seen ≡ earliest s.first_seen ss
  pub last_seen : r.last_seen ≡ latest s.last_seen ss
  pub counted : read_counter c r.stats % 2 ^ 64 ≡ stream_total c (s ∷ ss) % 2 ^ 64

-- The rows of one key: none without a stream of the key, else exactly one.
pub data Merged (c : Counter) : List Stream → List MergedStreamView → Type 0 where
  no_stream : Merged c [] []
  one_row :
      (s : Stream) (ss : List Stream) (r : MergedStreamView)
      → IsSumOf c s ss r
      → Merged c (s ∷ ss) (r ∷ [])

-- What the streams of one key make of its rows.
abbrev fold_row : MergedStreamView → List Stream → MergedStreamView
fold_row r [] = r
fold_row r (s ∷ ss) = fold_row (merge_row r s) ss

abbrev fold_rows : List MergedStreamView → List Stream → List MergedStreamView
fold_rows rows [] = rows
fold_rows [] (s ∷ ss) = fold_row (new_row s) ss ∷ []
fold_rows (r ∷ rows) (s ∷ ss) = fold_row r (s ∷ ss) ∷ rows

fold_rows_more :
    (r : MergedStreamView) (rows : List MergedStreamView) (ss : List Stream)
    → fold_rows (r ∷ rows) ss ≡ fold_row r ss ∷ rows
fold_rows_more r rows [] = refl
fold_rows_more r rows (s ∷ ss) = refl

fold_rows_step :
    (rows : List MergedStreamView) (s : Stream) (ss : List Stream)
    → fold_rows (fold_rows rows (s ∷ [])) ss ≡ fold_rows rows (s ∷ ss)
fold_rows_step [] s ss = fold_rows_more (new_row s) [] ss
fold_rows_step (r ∷ rows) s ss = fold_rows_more (merge_row r s) rows ss

-- A stream changes the rows of its own key only.
merge_node-rows_of :
    (k : FlowKey) (rows : List MergedStreamView) (s : Stream)
    → rows_of k (merge_node rows s)
      ≡ (if s.key ≟ k then fold_rows (rows_of k rows) (s ∷ []) else rows_of k rows)
unfolding merge_node rows_of
merge_node-rows_of k [] s = ground arith
merge_node-rows_of k (r ∷ rows) s = ground (arith, merge_node-rows_of k rows s)

merge_nodes-rows_of :
    (k : FlowKey) (rows : List MergedStreamView) (ss : List Stream)
    → rows_of k (merge_nodes rows ss) ≡ fold_rows (rows_of k rows) (streams_of k ss)
unfolding merge_nodes streams_of
merge_nodes-rows_of k rows [] = refl
merge_nodes-rows_of k rows (s ∷ ss) = elim (Bool-cases (s.key ≟ k)) [
  | inl e ↦
      rw (e, merge_nodes-rows_of k (merge_node rows s) ss, merge_node-rows_of k rows s, e)
        (fold_rows_step (rows_of k rows) s (streams_of k ss))
  | inr e ↦
      rw (e, merge_nodes-rows_of k (merge_node rows s) ss, merge_node-rows_of k rows s, e) refl
]

fold_row-nodes :
    (r : MergedStreamView) (ss : List Stream) → (fold_row r ss).nodes ≡ r.nodes ++ ids ss
fold_row-nodes r [] = sym (append-nil r.nodes)
fold_row-nodes r (s ∷ ss) =
    fold_row-nodes (merge_row r s) ss ∙ append_assoc r.nodes (s.id ∷ []) (ids ss)

merge_row-counted :
    (c : Counter) (r : MergedStreamView) (s : Stream)
    → read_counter c (merge_row r s).stats % 2 ^ 64
      ≡ (read_counter c r.stats + read_counter c s.stats) % 2 ^ 64
merge_row-counted packets_ab r s = omega arith
merge_row-counted bytes_ab r s = omega arith
merge_row-counted packets_ba r s = omega arith
merge_row-counted bytes_ba r s = omega arith

fold_row-counted :
    (c : Counter) (r : MergedStreamView) (ss : List Stream)
    → read_counter c (fold_row r ss).stats % 2 ^ 64
      ≡ (read_counter c r.stats + stream_total c ss) % 2 ^ 64
unfolding stream_total
fold_row-counted c r [] = omega arith
fold_row-counted c r (s ∷ ss) =
    let later = fold_row-counted c (merge_row r s) ss in
    let first = merge_row-counted c r s in omega arith

-- The parts of a row that come with its first stream, and its two times.
fold_row-head :
    (r : MergedStreamView) (ss : List Stream)
    → ((fold_row r ss).protocol ≡ r.protocol)
      × ((fold_row r ss).key ≡ r.key)
      × ((fold_row r ss).key_fields ≡ r.key_fields)
fold_row-head r [] = (refl, refl, refl)
fold_row-head r (s ∷ ss) = fold_row-head (merge_row r s) ss

fold_row-times :
    (r : MergedStreamView) (ss : List Stream)
    → ((fold_row r ss).first_seen ≡ earliest r.first_seen ss)
      × ((fold_row r ss).last_seen ≡ latest r.last_seen ss)
fold_row-times r [] = (refl, refl)
fold_row-times r (s ∷ ss) = fold_row-times (merge_row r s) ss

fold_row-IsSumOf :
    (c : Counter) (s : Stream) (ss : List Stream) → IsSumOf c s ss (fold_row (new_row s) ss)
unfolding stream_total
fold_row-IsSumOf c s ss =
    let (p, k, f) = fold_row-head (new_row s) ss in
    let (from, to) = fold_row-times (new_row s) ss in
    record {
      protocol = p;
      key = k;
      key_fields = f;
      nodes = fold_row-nodes (new_row s) ss;
      first_seen = from;
      last_seen = to;
      counted = fold_row-counted c (new_row s) ss;
    }

fold_rows-Merged : (c : Counter) (ss : List Stream) → Merged c ss (fold_rows [] ss)
fold_rows-Merged c [] = Merged.no_stream
fold_rows-Merged c (s ∷ ss) =
    Merged.one_row s ss (fold_row (new_row s) ss) (fold_row-IsSumOf c s ss)

merge_nodes-Merged :
    (c : Counter) (k : FlowKey) (ss : List Stream)
    → Merged c (streams_of k ss) (rows_of k (merge_nodes [] ss))
merge_nodes-Merged c k ss =
    rw (merge_nodes-rows_of k [] ss) (unfold rows_of in fold_rows-Merged c (streams_of k ss))

-- The merged view of a protocol has, for each key, no row where no stream of the protocol has the
-- key, and else exactly one. This row names just the streams of the key, each once and in their
-- order; it has the protocol, the key and the key fields of the first of them, the earliest of their
-- first and the latest of their last times, and each of its four counters is the sum of theirs,
-- modulo 2^64. Over all keys, no two rows have one key, there are as many nodes as streams, and the
-- sums of each counter agree, modulo 2^64.
pub at_layer_merged-conserves :
    (a : Aggregator) (p : ProtocolName) (c : Counter) (k : FlowKey)
    → Merged c (streams_of k (at_layer a p)) (rows_of k (at_layer_merged a p))
      × DistinctRows (at_layer_merged a p)
      × (node_total (at_layer_merged a p) ≡ length (at_layer a p))
      × (row_total c (at_layer_merged a p) % 2 ^ 64 ≡ stream_total c (at_layer a p) % 2 ^ 64)
unfolding at_layer_merged DistinctRows
at_layer_merged-conserves a p c k = (
  merge_nodes-Merged c k (at_layer a p),
  merge_nodes-DistinctRows [] (at_layer a p) tt,
  merged-nodes (at_layer a p),
  merged-total c (at_layer a p),
)
