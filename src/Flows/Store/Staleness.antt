-- ===== src/Flows/Store/Staleness.antt =====
-- The stale entries of the LRU heap behind an eviction (crates/pktflow-flows/src/store.rs).
use pktflow.Prelude.{
  ℕ, zero, suc, ◌+◌, ◌≤◌, ◌≡◌, refl, ap, ◌∙◌, List, [], ◌∷◌, ◌&&◌, ◌==◌, Option, none, some, set,
  length, arith, if◌then◌else◌, Bool-cases, Option-cases, inl, inr, ℕ_discrete,
}
use pktflow.Prelude.Words.{add32}
use pktflow.Core.Packet.{SystemTime, ProtocolName}
use pktflow.Flows.Store.{
  StreamId, CloseReason, Stream, Slot, Recency, Aggregator, CondenseKey, get_slot,
}
use pktflow.Flows.Store.Create.{push_heap, recency_le}
use pktflow.Flows.Store.Condense.{
  group_key, anchors_of, condense_evict, release_anchor, release_anchors,
}
use pktflow.Flows.Store.Candidates.{CondenseCandidate}
use pktflow.Flows.Store.Evict.{unindex, emit}
use pktflow.Flows.Store.Slots.{
  handle, same_handle, vacated, vacated_other, unlinked, without_child, unlinked-get,
}

-- Whether an entry of the LRU heap has another time or number than its stream.
abbrev pub stale_stream : Recency → Option Stream → ℕ
stale_stream (seen, seq, id) none = 0
stale_stream (seen, seq, id) (some s) =
    if (s.last_seen == seen) && (s.created_seq == seq) then 0 else 1

unfoldable pub stale : List Slot → List Recency → ℕ
stale slots [] = 0
stale slots ((seen, seq, id) ∷ rest) =
    stale_stream (seen, seq, id) (get_slot slots id) + stale slots rest

pub stale_le : (slots : List Slot) (h : List Recency) → stale slots h ≤ length h
unfolding stale
stale_le slots [] = omega arith
stale_le slots ((seen, seq, id) ∷ h) = ground (arith, stale_le slots h)

pub length-push_heap :
    (x : Recency) (h : List Recency) → length (push_heap recency_le x h) ≡ suc (length h)
unfolding push_heap
length-push_heap x [] = refl
length-push_heap x (y ∷ h) = elim (Bool-cases (recency_le x y)) [
  | inl e ↦ rw e refl
  | inr e ↦ rw e (ap suc (length-push_heap x h))
]

pub stale-push_heap :
    (slots : List Slot) (seen : SystemTime) (seq : ℕ) (id : StreamId) (h : List Recency)
    → stale slots (push_heap recency_le (seen, seq, id) h)
      ≡ stale_stream (seen, seq, id) (get_slot slots id) + stale slots h
unfolding push_heap stale
stale-push_heap slots seen seq id [] = refl
stale-push_heap slots seen seq id ((t, n, j) ∷ h) =
    elim (Bool-cases (recency_le (seen, seq, id) (t, n, j))) [
      | inl e ↦ rw e refl
      | inr e ↦ rw e (omega (arith, stale-push_heap slots seen seq id h))
    ]

pub fresh :
    (s : Stream) (id : StreamId) → stale_stream (s.last_seen, s.created_seq, id) (some s) ≡ 0
fresh s id = ground arith

set_vacant :
    (slots : List Slot) (i g j : ℕ)
    → get_slot (set slots i (record { generation = g; stream = none })) (handle i j) ≡ none
unfolding get_slot
set_vacant [] i g j = refl
set_vacant (x ∷ slots) zero g j = ground arith
set_vacant (x ∷ slots) (suc i) g j = set_vacant slots i g j

without_child-stale :
    (parent : Option StreamId) (id j : StreamId) (x : Recency) (t : Stream)
    → stale_stream x (some (without_child parent id j t)) ≡ stale_stream x (some t)
without_child-stale none id j x t = refl
without_child-stale (some p) id j (seen, seq, k) t = elim (Bool-cases (same_handle p j)) [
  | inl e ↦ rw e refl
  | inr e ↦ rw e refl
]

-- Behind an eviction no entry is stale that was not.
evicted_entry :
    (slots : List Slot) (parent : Option StreamId) (id j : StreamId) (seen : SystemTime) (seq : ℕ)
    → stale_stream (seen, seq, j) (get_slot (unlinked (vacated slots id) parent id) j)
      ≤ stale_stream (seen, seq, j) (get_slot slots j)
evicted_entry slots parent id j seen seq = elim (ℕ_discrete id.index j.index) [
  | yes same ↦
      let gone : get_slot (vacated slots id) j ≡ none =
        rw same (set_vacant slots j.index (add32 id.generation 1) j.generation) in
      rw (unlinked-get (vacated slots id) parent id j, gone) (omega arith)
  | no other ↦ elim (Option-cases (get_slot slots j)) [
    | inl e ↦
        rw (unlinked-get (vacated slots id) parent id j, vacated_other slots id j other, e)
          (omega arith)
    | inr (t, e) ↦
        rw (unlinked-get (vacated slots id) parent id j, vacated_other slots id j other, e)
          (omega (arith, without_child-stale parent id j (seen, seq, j) t))
  ]
]

pub evicted_entries :
    (slots : List Slot) (parent : Option StreamId) (id : StreamId) (h : List Recency)
    → stale (unlinked (vacated slots id) parent id) h ≤ stale slots h
unfolding stale
evicted_entries slots parent id [] = omega arith
evicted_entries slots parent id ((seen, seq, j) ∷ h) =
    omega (arith, evicted_entry slots parent id j seen seq, evicted_entries slots parent id h)

-- The steps of an eviction before the parent leave the LRU heap alone.
release_anchor-lru : (a : Aggregator) (k : CondenseKey) → (release_anchor a k).lru ≡ a.lru
unfolding release_anchor
release_anchor-lru a k = ground arith

release_anchors-lru :
    (a : Aggregator) (parent : Option StreamId) (p : ProtocolName) (cs : List CondenseCandidate)
    → (release_anchors a parent p cs).lru ≡ a.lru
unfolding release_anchors
release_anchors-lru a parent p [] = refl
release_anchors-lru a parent p (c ∷ cs) =
    release_anchors-lru (release_anchor a (group_key parent p c.anchor)) parent p cs
    ∙ release_anchor-lru a (group_key parent p c.anchor)

pub condense_evict-lru : (a : Aggregator) (s : Stream) → (condense_evict a s).lru ≡ a.lru
unfolding condense_evict
condense_evict-lru a s = elim (Option-cases (anchors_of a s)) [
  | inl e ↦ ground arith
  | inr (cs, e) ↦ ground (arith, release_anchors-lru a s.parent s.protocol cs)
]

pub unindex-lru : (a : Aggregator) (s : Stream) (id : StreamId) → (unindex a s id).lru ≡ a.lru
unfolding unindex
unindex-lru a s id = ground arith

pub emit-lru : (a : Aggregator) (s : Stream) (r : CloseReason) → (emit a s r).lru ≡ a.lru
unfolding emit
emit-lru a s r = ground arith
