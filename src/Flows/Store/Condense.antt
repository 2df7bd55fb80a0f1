-- ===== src/Flows/Store/Condense.antt =====
-- Condensation of fan-outs (condense_fold and condense_evict of
-- crates/pktflow-flows/src/store.rs).
use pktflow.Prelude.{
  ℕ, ◌-◌, List, [], ◌∷◌, ◌++◌, Bool, true, false, ◌||◌, Option, none, some, length, drop, leb, ltb,
  ◌==◌, string_eq, bytes_eq, nat_eq, contains, if◌then◌else◌,
}
use pktflow.Prelude.Map
use pktflow.Prelude.Words.{add64, sub64}
use pktflow.Core.Value
use pktflow.Core.Value.{Value, FieldName, FieldMap, empty}
use pktflow.Core.Packet.{ProtocolName, SystemTime}
use pktflow.Core.Stream.{PacketDirection, StreamIdentity}
use pktflow.Core.Engine.{plugin_by_name}
use pktflow.Flows.Key.{KeyBuf}
use pktflow.Flows.Rollup.{new_set}
use pktflow.Flows.Store.{
  StreamId, Stream, CondenseGroup, CondenseKey, condense_key_eq, Aggregator, get, modify,
}
use pktflow.Flows.Store.Create.{create_stream_raw}
use pktflow.Flows.Store.Candidates.{
  ◌>>=◌, condense_member_cap, condensed_key_sentinel, CondenseCandidate, condense_candidates,
}

abbrev pub no_group : CondenseGroup
no_group = record { expanded = 0; node = none; members = [] }

abbrev pub group_key : Option StreamId → ProtocolName → KeyBuf → CondenseKey
group_key parent protocol anchor = record { parent = parent; protocol = protocol; anchor = anchor }

-- The node of a group that is still in the store.
unfoldable pub live_node : Aggregator → CondenseGroup → Option StreamId
unfolding get
live_node a g = elim g.node [
  | none ↦ none
  | some id ↦ elim (get a id) [ none ↦ none | some s ↦ some id ]
]

-- `if let Some(group) = self.condense.get_mut(&ckey)`
unfoldable pub modify_group :
    Aggregator → CondenseKey → (CondenseGroup → CondenseGroup) → Aggregator
unfolding Map.get Map.insert
modify_group a ckey f = elim (Map.get ckey a.condense) [
  | none ↦ a
  | some g ↦ record a { condense = Map.insert ckey (f g) a.condense }
]

-- The node that stands for a group, made for the first flow to fold. It does not count as created.
unfoldable pub create_node :
    Aggregator
    → Option StreamId
    → ProtocolName
    → StreamIdentity
    → CondenseCandidate
    → SystemTime
    → Aggregator × StreamId
unfolding create_stream_raw Map.get Map.insert modify_group new_set Value.insert
create_node a parent protocol identity c ts =
    let (b, id) =
      create_stream_raw a parent (record { bytes = condensed_key_sentinel ∷ c.anchor })
        (Value.insert empty c.anchor_field c.anchor_value) none
        (new_set identity.rollups a.config.rollup_series_default_cap a.config.rollup_series_max_cap)
        (some (record { member_flows = 0; ephemeral_field = c.anchor_field; overflow = false }))
        c.fold_dir protocol ts in
    let uncounted = record b {
      totals = record b.totals { streams_created = sub64 b.totals.streams_created 1 };
      created_per_protocol = elim (Map.get protocol b.created_per_protocol) [
        | none ↦ b.created_per_protocol
        | some ever ↦ Map.insert protocol (sub64 ever 1) b.created_per_protocol
      ];
    } in
    (
      modify_group uncounted (group_key parent protocol c.anchor)
          (λ g. record g { node = some id }),
      id,
    )

-- What a member does to its group: whether it is new, and whether the tally is full.
unfoldable pub tally : CondenseGroup → ℕ → CondenseGroup × Bool × Bool
tally g digest =
    if ltb (length g.members) condense_member_cap
    then (if contains g.members digest
        then (g, false, false)
        else (record g { members = g.members ++ digest ∷ [] }, true, false))
    else if contains g.members digest
    then (g, false, false)
    else (g, false, true)

abbrev pub count_member : Aggregator → ProtocolName → Aggregator
count_member a protocol = record a {
  totals = record a.totals {
    streams_created = add64 a.totals.streams_created 1;
    flows_condensed = add64 a.totals.flows_condensed 1;
  };
  created_per_protocol =
      Map.insert protocol (add64 (Map.get_or protocol 0 a.created_per_protocol) 1)
        a.created_per_protocol;
}

-- The change of the node's own tally; `info.overflow |= overflowed`.
unfoldable pub note_member : Bool → Bool → Stream → Stream
note_member new_member overflowed s = elim s.condensed [
  | none ↦ s
  | some info ↦ record s {
    condensed = some (record info {
      member_flows = if new_member then add64 info.member_flows 1 else info.member_flows;
      overflow = info.overflow || overflowed;
    });
  }
]

unfoldable pub add_member : Aggregator → CondenseKey → ProtocolName → StreamId → ℕ → Aggregator
unfolding Map.get Map.insert tally note_member modify
add_member a ckey protocol node digest = elim (Map.get ckey a.condense) [
  | none ↦ a
  | some g ↦
      let (g', new_member, overflowed) = tally g digest in
      let b = record a { condense = Map.insert ckey g' a.condense } in
      let c = if new_member then count_member b protocol else b in
      if new_member || overflowed then modify c node (note_member new_member overflowed) else c
]

-- `condense_fold`
unfoldable pub condense_fold :
    Aggregator
    → Option StreamId
    → ProtocolName
    → StreamIdentity
    → CondenseCandidate
    → SystemTime
    → Option (Aggregator × StreamId × PacketDirection)
unfolding Map.get live_node create_node add_member
condense_fold a parent protocol identity c ts =
    let ckey = group_key parent protocol c.anchor in
    elim (Map.get ckey a.condense) [
      | none ↦ none
      | some g ↦
          if (elim g.node [ none ↦ leb a.config.condense_threshold g.expanded | some id ↦ true ])
          then (let placed : Aggregator × StreamId = elim (live_node a g) [
            | some id ↦ (a, id)
            | none ↦ create_node a parent protocol identity c ts
          ] in
              some (
                add_member (placed.0) ckey protocol (placed.1) c.varying_digest,
                placed.1,
                c.fold_dir,
              ))
          else none
    ]

-- One anchor of an evicted flow loses a tally; an empty group without a node goes.
unfoldable pub release_anchor : Aggregator → CondenseKey → Aggregator
unfolding Map.get Map.insert Map.remove
release_anchor a ckey = elim (Map.get ckey a.condense) [
  | none ↦ a
  | some g ↦
      let expanded = g.expanded - 1 in
      let keep = record a {
        condense = Map.insert ckey (record g { expanded = expanded }) a.condense;
      } in
      elim g.node [
        | some id ↦ keep
        | none ↦ if expanded == 0 then record a { condense = Map.remove ckey a.condense } else keep
      ]
]

unfoldable pub release_anchors :
    Aggregator → Option StreamId → ProtocolName → List CondenseCandidate → Aggregator
unfolding release_anchor
release_anchors a parent protocol [] = a
release_anchors a parent protocol (c ∷ cs) =
    release_anchors (release_anchor a (group_key parent protocol c.anchor)) parent protocol cs

-- The anchors of an evicted flow, as they were tallied when it was made.
unfoldable pub anchors_of : Aggregator → Stream → Option (List CondenseCandidate)
unfolding plugin_by_name condense_candidates
anchors_of a s = do
  plugin ← plugin_by_name a.engine s.protocol
  spec ← plugin.condense
  identity ← plugin.stream_identity
  condense_candidates a.hasher identity spec s.key_fields

-- `condense_evict`
unfoldable pub condense_evict : Aggregator → Stream → Aggregator
unfolding Map.remove anchors_of release_anchors
condense_evict a s = if a.config.condense_threshold == 0 then a else elim s.condensed [
  | some info ↦ record a {
    condense = Map.remove (group_key s.parent s.protocol (drop 1 s.key.bytes)) a.condense;
  }
  | none ↦ elim (anchors_of a s) [ none ↦ a | some cs ↦ release_anchors a s.parent s.protocol cs ]
]
