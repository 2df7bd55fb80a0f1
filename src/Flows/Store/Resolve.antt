-- ===== src/Flows/Store/Resolve.antt =====
-- From a layer to its stream (get_or_insert of crates/pktflow-flows/src/store.rs).
use pktflow.Prelude.{List, [], ◌∷◌, Option, none, some, ◌==◌, ◌≟◌, string_eq, if◌then◌else◌}
use pktflow.Prelude.Map
use pktflow.Prelude.Words.{add32}
use pktflow.Core.Value.{FieldMap}
use pktflow.Core.Packet.{ProtocolName, SystemTime, LayerRecord}
use pktflow.Core.Stream.{FlowKey, flow_key_eq, PacketDirection, StreamIdentity, CondenseSpec}
use pktflow.Flows.Store.{
  StreamId, CondenseGroup, CondenseKey, condense_key_eq, index_key_eq, Aggregator, get,
}
use pktflow.Flows.Store.Create.{create_stream}
use pktflow.Flows.Store.Condense.{condense_fold, no_group, group_key}
use pktflow.Flows.Store.Candidates.{CondenseCandidate, condense_candidates}

-- The first stream of a bucket that has the key itself.
unfoldable pub probe_bucket : Aggregator → FlowKey → List StreamId → Option StreamId
unfolding get
probe_bucket a key [] = none
probe_bucket a key (id ∷ ids) =
    let rest = probe_bucket a key ids in
    elim (get a id) [ none ↦ rest | some s ↦ if s.key ≟ key then some id else rest ]

-- The index lookup.
unfoldable pub lookup : Aggregator → Option StreamId → ProtocolName → FlowKey → Option StreamId
unfolding probe_bucket Map.get
lookup a parent protocol key =
    elim (Map.get (record { parent = parent; protocol = protocol; digest = a.hasher.key_hash key })
      a.index) [ none ↦ none | some bucket ↦ probe_bucket a key bucket ]

-- The first candidate whose group takes the packet.
unfoldable pub fold_first :
    Aggregator
    → Option StreamId
    → ProtocolName
    → StreamIdentity
    → List CondenseCandidate
    → SystemTime
    → Option (Aggregator × StreamId × PacketDirection)
unfolding condense_fold
fold_first a parent protocol identity [] ts = none
fold_first a parent protocol identity (c ∷ cs) ts =
    elim (condense_fold a parent protocol identity c ts) [
      | some r ↦ some r
      | none ↦ fold_first a parent protocol identity cs ts
    ]

-- A flow that does not fold counts towards the thresholds of its anchors.
unfoldable pub tally_anchors :
    Aggregator → Option StreamId → ProtocolName → List CondenseCandidate → Aggregator
unfolding Map.get_or Map.insert
tally_anchors a parent protocol [] = a
tally_anchors a parent protocol (c ∷ cs) =
    let ckey : CondenseKey = group_key parent protocol c.anchor in
    let g : CondenseGroup = Map.get_or ckey no_group a.condense in
    tally_anchors
      (record a {
        condense = Map.insert ckey (record g { expanded = add32 g.expanded 1 }) a.condense;
      })
      parent protocol cs

-- The candidates, where the plugin declares condensation and the threshold is not 0.
unfoldable pub candidates_for :
    Aggregator → StreamIdentity → Option CondenseSpec → FieldMap → Option (List CondenseCandidate)
unfolding condense_candidates
candidates_for a identity none fields = none
candidates_for a identity (some spec) fields =
    if a.config.condense_threshold == 0
    then none
    else condense_candidates a.hasher identity spec fields

-- `get_or_insert`
unfoldable pub get_or_insert :
    Aggregator
    → Option StreamId
    → FlowKey
    → StreamIdentity
    → Option CondenseSpec
    → LayerRecord
    → PacketDirection
    → SystemTime
    → Aggregator × StreamId × PacketDirection
unfolding lookup candidates_for fold_first create_stream tally_anchors
get_or_insert a parent key identity condense layer dir ts =
    elim (lookup a parent layer.protocol key) [
      | some id ↦ (a, id, dir)
      | none ↦ elim (candidates_for a identity condense layer.fields) [
        | none ↦
            let made = create_stream a parent key identity layer dir ts in (made.0, made.1, dir)
        | some cs ↦ elim (fold_first a parent layer.protocol identity cs ts) [
          | some r ↦ r
          | none ↦
              let made = create_stream a parent key identity layer dir ts in
              (tally_anchors (made.0) parent layer.protocol cs, made.1, dir)
        ]
      ]
    ]
