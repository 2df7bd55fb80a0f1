-- ===== src/Flows/Store/Conserved.antt =====
-- What the merged view of a layer conserves over all of its rows (at_layer_merged of
-- crates/pktflow-flows/src/store.rs).
use pktflow.Prelude.{
  ℕ, ◌+◌, ◌%◌, ◌^◌, ◌≡◌, refl, ◌∙◌, List, [], ◌∷◌, Bool, true, false, ◌≟◌, length, length-append,
  arith, if◌then◌else◌, Bool-cases, inl, inr,
}
use pktflow.Core.Stream.{FlowKey, flow_key_eq}
use pktflow.Flows.Store.{Stream, DirStats}
use pktflow.Flows.Store.Query.{MergedStreamView, merge_node, merge_nodes}

-- One of the four counters of a stream or a row.
pub data Counter : Type 0 where
  packets_ab bytes_ab packets_ba bytes_ba : Counter

abbrev pub read_counter : Counter → DirStats × DirStats → ℕ
read_counter packets_ab s = s.0.packets
read_counter bytes_ab s = s.0.bytes
read_counter packets_ba s = s.1.packets
read_counter bytes_ba s = s.1.bytes

unfoldable pub row_total : Counter → List MergedStreamView → ℕ
row_total c [] = 0
row_total c (r ∷ rs) = read_counter c r.stats + row_total c rs

unfoldable pub stream_total : Counter → List Stream → ℕ
stream_total c [] = 0
stream_total c (s ∷ ss) = read_counter c s.stats + stream_total c ss

pub node_total : List MergedStreamView → ℕ
node_total [] = 0
node_total (r ∷ rs) = length r.nodes + node_total rs

abbrev has_row : List MergedStreamView → FlowKey → Bool
has_row [] k = false
has_row (r ∷ rs) k = if r.key ≟ k then true else has_row rs k

-- No two rows have one key.
unfoldable pub DistinctRows : List MergedStreamView → Type 0
DistinctRows [] = Unit {0}
DistinctRows (r ∷ rs) = (has_row rs r.key ≡ false) × DistinctRows rs

merge_node-total :
    (c : Counter) (rows : List MergedStreamView) (s : Stream)
    → row_total c (merge_node rows s) % 2 ^ 64
      ≡ (row_total c rows + read_counter c s.stats) % 2 ^ 64
unfolding merge_node row_total
merge_node-total c [] s = ground arith
merge_node-total packets_ab (r ∷ rows) s = ground (arith, merge_node-total packets_ab rows s)
merge_node-total bytes_ab (r ∷ rows) s = ground (arith, merge_node-total bytes_ab rows s)
merge_node-total packets_ba (r ∷ rows) s = ground (arith, merge_node-total packets_ba rows s)
merge_node-total bytes_ba (r ∷ rows) s = ground (arith, merge_node-total bytes_ba rows s)

merge_nodes-total :
    (c : Counter) (rows : List MergedStreamView) (ss : List Stream)
    → row_total c (merge_nodes rows ss) % 2 ^ 64 ≡ (row_total c rows + stream_total c ss) % 2 ^ 64
unfolding merge_nodes stream_total
merge_nodes-total c rows [] = ground arith
merge_nodes-total c rows (s ∷ ss) =
    let later = merge_nodes-total c (merge_node rows s) ss in
    let first = merge_node-total c rows s in omega arith

merge_node-nodes :
    (rows : List MergedStreamView) (s : Stream)
    → node_total (merge_node rows s) ≡ node_total rows + 1
unfolding merge_node node_total
merge_node-nodes [] s = ground arith
merge_node-nodes (r ∷ rows) s =
    ground (arith, merge_node-nodes rows s, length-append r.nodes (s.id ∷ []))

merge_nodes-nodes :
    (rows : List MergedStreamView) (ss : List Stream)
    → node_total (merge_nodes rows ss) ≡ node_total rows + length ss
unfolding merge_nodes
merge_nodes-nodes rows [] = omega arith
merge_nodes-nodes rows (s ∷ ss) =
    omega (arith, merge_nodes-nodes (merge_node rows s) ss, merge_node-nodes rows s)

merge_node-has_row :
    (rows : List MergedStreamView) (s : Stream) (k : FlowKey)
    → (s.key ≟ k) ≡ false
    → has_row (merge_node rows s) k ≡ has_row rows k
unfolding merge_node
merge_node-has_row [] s k h = ground arith
merge_node-has_row (r ∷ rows) s k h = ground (arith, merge_node-has_row rows s k)

merge_node-DistinctRows :
    (rows : List MergedStreamView) (s : Stream)
    → DistinctRows rows
    → DistinctRows (merge_node rows s)
unfolding merge_node DistinctRows
merge_node-DistinctRows [] s d = (refl, tt)
merge_node-DistinctRows (r ∷ rows) s (d, ds) = elim (Bool-cases (r.key ≟ s.key)) [
  | inl e ↦ rw e (d, ds)
  | inr e ↦
      rw e (merge_node-has_row rows s r.key (ground arith) ∙ d, merge_node-DistinctRows rows s ds)
]

pub merge_nodes-DistinctRows :
    (rows : List MergedStreamView) (ss : List Stream)
    → DistinctRows rows
    → DistinctRows (merge_nodes rows ss)
unfolding merge_nodes
merge_nodes-DistinctRows rows [] d = d
merge_nodes-DistinctRows rows (s ∷ ss) d =
    merge_nodes-DistinctRows (merge_node rows s) ss (merge_node-DistinctRows rows s d)

pub merged-nodes : (ss : List Stream) → node_total (merge_nodes [] ss) ≡ length ss
unfolding node_total
merged-nodes ss = omega (arith, merge_nodes-nodes [] ss)

pub merged-total :
    (c : Counter) (ss : List Stream)
    → row_total c (merge_nodes [] ss) % 2 ^ 64 ≡ stream_total c ss % 2 ^ 64
unfolding row_total
merged-total c ss = let h = merge_nodes-total c [] ss in omega arith
