-- ===== src/Flows/Store/Lookup.antt =====
-- The lookup index never confuses two keys (crates/pktflow-flows/src/store.rs).
use pktflow.Prelude.{
  ◌≡◌, List, [], ◌∷◌, Option, some, ◌≟◌, arith, Bool-cases, Option-cases, inl, inr,
}
use pktflow.Prelude.Map
use pktflow.Core.Packet.{ProtocolName}
use pktflow.Core.Stream.{FlowKey, flow_key_eq}
use pktflow.Flows.Store.{StreamId, stream_id_eq, index_key_eq, Stream, Aggregator, get}
use pktflow.Flows.Store.Resolve.{probe_bucket, lookup}

probe_bucket-key :
    (a : Aggregator) (key : FlowKey) (ids : List StreamId) (id : StreamId)
    → probe_bucket a key ids ≡ some id
    → (s : Stream) × (get a id ≡ some s) × (s.key ≡ key)
unfolding probe_bucket
probe_bucket-key a key [] id h = cc
probe_bucket-key a key (j ∷ ids) id h = elim (Option-cases (get a j)) [
  | inl e ↦ probe_bucket-key a key ids id (rw (e, probe_bucket) at h)
  | inr (s, e) ↦ elim (Bool-cases (s.key ≟ key)) [
    | inl q ↦
        let same : ◌≡◌ {A = Option StreamId} (some j) (some id) = rw (e, q, probe_bucket) at h in
        (s, cc (e, same), ground arith)
    | inr q ↦ probe_bucket-key a key ids id (rw (e, q, probe_bucket) at h)
  ]
]

-- Whatever the hash function is, a stream that the index finds for a key has that key itself.
pub lookup-key :
    (a : Aggregator) (parent : Option StreamId) (protocol : ProtocolName) (key : FlowKey)
    (id : StreamId)
    → lookup a parent protocol key ≡ some id
    → (s : Stream) × (get a id ≡ some s) × (s.key ≡ key)
unfolding lookup
lookup-key a parent protocol key id h =
    elim (Option-cases (
      Map.get (record { parent = parent; protocol = protocol; digest = a.hasher.key_hash key })
        a.index)) [
          | inl e ↦ cc (rw (e, lookup) at h)
          | inr (bucket, e) ↦ probe_bucket-key a key bucket id (rw (e, lookup) at h)
        ]
