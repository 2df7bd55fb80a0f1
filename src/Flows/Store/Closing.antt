-- ===== src/Flows/Store/Closing.antt =====
-- The lifecycle of a stream and the anchor of its linger (ingest of
-- crates/pktflow-flows/src/store.rs).
use pktflow.Prelude.{
  ℕ, ◌≡◌, refl, Bool, true, false, Option, none, some, contains, string_eq, arith, if◌then◌else◌,
  Option-cases, inl, inr,
}
use pktflow.Core.Value.{FieldMap}
use pktflow.Core.Packet.{SystemTime}
use pktflow.Core.Stream.{PacketDirection, StateName, LifecycleSpec, StreamIdentity}
use pktflow.Flows.Store.{Stream}
use pktflow.Flows.Store.Ingest.{bump_stats, advance_state, update_stream}

-- The linger has an anchor exactly while the stream is in a closed state.
unfoldable pub IsAnchored : Stream → Type 0
IsAnchored s = s.close_eligible ≡ (elim s.close_eligible_since [ none ↦ false | some t ↦ true ])

-- Where the anchor of the linger comes from: kept while the stream stays closed, this packet's time
-- where it enters a closed state, nothing in an open state.
abbrev pub anchor :
    Option LifecycleSpec
    → FieldMap
    → PacketDirection
    → SystemTime
    → Option StateName
    → Option SystemTime
    → Option SystemTime
anchor none fields dir ts state since = since
anchor (some spec) fields dir ts none since = since
anchor (some spec) fields dir ts (some current) since =
    if contains spec.closed_states (spec.advance fields current dir)
    then (elim since [ none ↦ some ts | some t ↦ some t ])
    else none

closed_or_open :
    (closed was : Bool) (since : Option SystemTime) (ts : SystemTime)
    → was ≡ (elim since [ none ↦ false | some t ↦ true ])
    → let next : Option SystemTime = if closed then (if was then since else some ts) else none in
      (closed ≡ (elim next [ none ↦ false | some t ↦ true ]))
      × (next ≡ (if closed then (elim since [ none ↦ some ts | some t ↦ some t ]) else none))
closed_or_open closed was none ts h = ground arith
closed_or_open closed was (some t) ts h = ground arith

advance_state-anchor :
    (spec : Option LifecycleSpec) (fields : FieldMap) (dir : PacketDirection) (ts : SystemTime)
    (s : Stream)
    → IsAnchored s
    → IsAnchored (advance_state spec fields dir ts s)
      × ((advance_state spec fields dir ts s).close_eligible_since
          ≡ anchor spec fields dir ts s.state s.close_eligible_since)
unfolding advance_state IsAnchored
advance_state-anchor none fields dir ts s h = (h, refl)
advance_state-anchor (some spec) fields dir ts s h = elim (Option-cases s.state) [
  | inl e ↦ rw (e, advance_state) (h, refl)
  | inr (current, e) ↦
      rw (e, advance_state)
        (closed_or_open (contains spec.closed_states (spec.advance fields current dir))
          s.close_eligible s.close_eligible_since ts h)
]

-- If the linger of a stream has an anchor exactly while the stream is in a closed state, this stays
-- so behind each of its packets, and the anchor is the time of the packet that entered the closed
-- state: later packets that leave the stream closed do not move it, and a packet that leads out of
-- the closed states removes it.
pub update_stream-anchor :
    (identity : StreamIdentity) (fields : FieldMap) (dir : PacketDirection) (ts : SystemTime)
    (bytes : ℕ) (s : Stream)
    → IsAnchored s
    → IsAnchored (update_stream identity fields dir ts bytes s)
      × ((update_stream identity fields dir ts bytes s).close_eligible_since
          ≡ anchor identity.lifecycle fields dir ts s.state s.close_eligible_since)
unfolding update_stream IsAnchored
update_stream-anchor identity fields dir ts bytes s h =
    advance_state-anchor identity.lifecycle fields dir ts
      (record s { last_seen = ts; stats = bump_stats s.stats dir bytes }) h
