-- ===== src/Flows/Store/Cap.antt =====
-- The LRU cap runs to its end on the fuel it is given (enforce_max_streams of
-- crates/pktflow-flows/src/store.rs).
use pktflow.Prelude.{
  ℕ, zero, suc, ◌+◌, ◌≤◌, ◌<◌, ◌≡◌, ◌∙◌, ◌⊎◌, List, [], ◌∷◌, ◌&&◌, ◌==◌, Option, none, some, length,
  leb, arith, Bool-cases, Option-cases, List-cases, inl, inr,
}
use mathlib.Core.Path.{subst}
use pktflow.Core.Packet.{SystemTime}
use pktflow.Flows.Store.{
  StreamId, CloseReason, lru_evicted, live, Stream, Slot, Recency, Aggregator, get, modify,
}
use pktflow.Flows.Store.Create.{push_heap, recency_le, push_expiry, push_lru}
use pktflow.Flows.Store.Condense.{condense_evict}
use pktflow.Flows.Store.Evict.{
  uncount, unindex, rearm, unlink, evict, drop_child, recency_entry, enforce_on, enforce_fuel,
  enforce_max_streams,
}
use pktflow.Flows.Store.Slots.{
  vacated, unlinked, evict-slots, take_slot-get, unindex-slots, condense_evict-slots,
}
use pktflow.Flows.Store.Occupancy.{occupied, occupied_le, occupied-unlinked, occupied-vacated}
use pktflow.Flows.Store.Staleness.{
  stale_stream, stale, stale_le, length-push_heap, stale-push_heap, fresh, evicted_entries,
  condense_evict-lru, unindex-lru, emit-lru,
}

-- The weight of the heap: its entries, and those of them that are stale.
abbrev weight : List Slot → List Recency → ℕ
weight slots h = length h + stale slots h

rearm-lru :
    (a : Aggregator) (p : StreamId)
    → (rearm a p).lru ≡ (elim (get a p) [
      | none ↦ a.lru
      | some s ↦ push_heap recency_le (s.last_seen, s.created_seq, p) a.lru
    ])
unfolding rearm push_expiry push_lru
rearm-lru a p = ground arith

rearm-weight :
    (a : Aggregator) (p : StreamId) → weight a.slots (rearm a p).lru ≤ suc (weight a.slots a.lru)
unfolding get
rearm-weight a p = elim (Option-cases (get a p)) [
  | inl e ↦ rw (rearm-lru a p, e) (omega arith)
  | inr (s, e) ↦
      rw
        (
          rearm-lru a p,
          e,
          length-push_heap (s.last_seen, s.created_seq, p) a.lru,
          stale-push_heap a.slots s.last_seen s.created_seq p a.lru,
          e,
          fresh s p,
        )
        (omega arith)
]

unlink-weight :
    (a : Aggregator) (parent : Option StreamId) (id : StreamId)
    → weight (unlinked a.slots parent id) (unlink a parent id).lru
      ≤ suc (weight (unlinked a.slots parent id) a.lru)
unfolding unlink modify
unlink-weight a none id = omega arith
unlink-weight a (some p) id = rearm-weight (modify a p (drop_child id)) p

-- The turns that are left: the weight of the heap, and the streams that an eviction can take.
abbrev turns : Aggregator → ℕ
turns a = weight a.slots a.lru + occupied a.slots

evict-turns :
    (a : Aggregator) (id : StreamId) (reason : CloseReason) (s : Stream)
    → get a id ≡ some s
    → turns (evict a id reason) ≤ turns a
unfolding get evict
evict-turns a id reason s h =
    let slots = vacated a.slots id in
    let taken = take_slot-get a.slots id s h in
    let u = uncount a s slots id.index in
    let v = condense_evict u s in
    let w = unindex v s id in
    let x = unlink w s.parent id in
    let same : w.slots ≡ slots = unindex-slots v s id ∙ condense_evict-slots u s in
    let heap : w.lru ≡ a.lru = unindex-lru v s id ∙ condense_evict-lru u s in
    let after : (evict a id reason).slots ≡ unlinked slots s.parent id =
      evict-slots a id reason s slots taken in
    let lru : (evict a id reason).lru ≡ x.lru = rw (taken, evict) (emit-lru x s reason) in
    let more = unlink-weight w s.parent id in
    let fewer = evicted_entries a.slots s.parent id a.lru in
    let freed = occupied-vacated a.slots id.index id.generation s h in
    let kept = occupied-unlinked slots s.parent id in
    let bound : weight (unlinked slots s.parent id) x.lru
        ≤ suc (weight (unlinked slots s.parent id) a.lru) =
      subst
        (λ h.
          weight (unlinked slots s.parent id) x.lru ≤ suc (weight (unlinked slots s.parent id) h))
        heap
        (subst
          (λ z. weight (unlinked z s.parent id) x.lru ≤ suc (weight (unlinked z s.parent id) w.lru))
          same more) in
    rw (after, lru) (omega arith)

recency_entry-turns :
    (a : Aggregator) (seen : SystemTime) (seq : ℕ) (id : StreamId)
    → turns (recency_entry a seen seq id) ≤ turns a + stale_stream (seen, seq, id) (get a id)
unfolding recency_entry get
recency_entry-turns a seen seq id = elim (Option-cases (get a id)) [
  | inl e ↦ rw (e, recency_entry) (omega arith)
  | inr (s, e) ↦ elim (List-cases s.children) [
    | inr (c, cs, inner) ↦ rw (e, inner, recency_entry) (omega arith)
    | inl leaf ↦ elim (Bool-cases ((s.last_seen == seen) && (s.created_seq == seq))) [
      | inl current ↦
          let less = evict-turns a id lru_evicted s e in
          rw (e, leaf, current, recency_entry) (omega arith)
      | inr old ↦
          let refreshed : stale_stream (s.last_seen, s.created_seq, id) (get a id) ≡ 0 =
            rw e (fresh s id) in
          let entries = length-push_heap (s.last_seen, s.created_seq, id) a.lru in
          let stays = stale-push_heap a.slots s.last_seen s.created_seq id a.lru in
          rw (e, leaf, old, recency_entry) (omega arith)
    ]
  ]
]

pop-turns :
    (a : Aggregator) (seen : SystemTime) (seq : ℕ) (id : StreamId) (rest : List Recency)
    → a.lru ≡ (seen, seq, id) ∷ rest
    → turns a ≡ suc (turns (record a { lru = rest }) + stale_stream (seen, seq, id) (get a id))
unfolding stale get
pop-turns a seen seq id rest e = rw e (omega arith)

enforce_on-ends :
    (fuel : ℕ) (a : Aggregator) (max_streams : ℕ)
    → turns a < fuel
    → ((enforce_on fuel a max_streams).live_count ≤ max_streams)
      ⊎ ((enforce_on fuel a max_streams).lru ≡ [])
unfolding enforce_on
enforce_on-ends zero a max_streams h = absurd (omega arith)
enforce_on-ends (suc fuel) a max_streams h = elim (List-cases a.lru) [
  | inl e ↦ inr (rw (e, enforce_on) e)
  | inr ((seen, seq, id), rest, e) ↦ elim (Bool-cases (leb a.live_count max_streams)) [
    | inl small ↦ inl (rw (e, small, enforce_on) (ground arith))
    | inr large ↦
        let b : Aggregator = record a { lru = rest } in
        let less = recency_entry-turns b seen seq id in
        let popped = pop-turns a seen seq id rest e in
        rw (e, large, enforce_on)
          (enforce_on-ends fuel (recency_entry b seen seq id) max_streams (omega arith))
  ]
]

-- The cap of the live policy ends with at most `max_streams` live streams, or with no candidate left
-- in the LRU heap: its fuel never runs out.
pub enforce_max_streams-ends :
    (a : Aggregator) (idle linger max_streams : ℕ)
    → a.config.eviction ≡ live idle linger max_streams
    → ((enforce_max_streams a).live_count ≤ max_streams) ⊎ ((enforce_max_streams a).lru ≡ [])
unfolding enforce_max_streams
enforce_max_streams-ends a idle linger max_streams h =
    rw (h, enforce_max_streams)
      (enforce_on-ends (enforce_fuel a) a max_streams
        (omega (arith, stale_le a.slots a.lru, occupied_le a.slots)))
