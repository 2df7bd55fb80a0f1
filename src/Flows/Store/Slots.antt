-- ===== src/Flows/Store/Slots.antt =====
-- What an eviction leaves of the slots (crates/pktflow-flows/src/store.rs).
use pktflow.Prelude.{
  ℕ, zero, suc, ◌≡◌, ◌≢◌, refl, ap, ◌∙◌, List, [], ◌∷◌, Bool, Option, none, some, set,
  get_elem?-set_ne, ◌==◌, ◌&&◌, arith, if◌then◌else◌, Option-cases, inl, inr,
}
use pktflow.Prelude.Words.{add32}
use pktflow.Core.Packet.{ProtocolName}
use pktflow.Core.Stream.{flow_key_eq}
use pktflow.Flows.Store.{
  StreamId, stream_id_eq, index_key_eq, CondenseKey, CloseReason, Stream, Slot, Aggregator,
  get_slot, get, modify_slot, modify,
}
use pktflow.Flows.Store.Create.{push_expiry, push_lru}
use pktflow.Flows.Store.Condense.{
  group_key, anchors_of, condense_evict, release_anchor, release_anchors,
}
use pktflow.Flows.Store.Candidates.{CondenseCandidate}
use pktflow.Flows.Store.Evict.{take_slot, uncount, unindex, rearm, unlink, emit, evict, drop_child}

abbrev pub handle : ℕ → ℕ → StreamId
handle i g = record { index = i; generation = g }

abbrev pub same_handle : StreamId → StreamId → Bool
same_handle x y = (x.index == y.index) && (x.generation == y.generation)

-- An update reaches the stream of its handle and no other, and no handle dies or comes alive.
module _ (f : Stream → Stream) where
  pub update_at :
      (slots : List Slot) (i g j h : ℕ)
      → get_slot (modify_slot slots (handle i g) f) (handle j h)
        ≡ (elim (get_slot slots (handle j h)) [
          | none ↦ none
          | some s ↦ some (if (i == j) && (g == h) then f s else s)
        ])
  unfolding modify_slot get_slot
  update_at [] i g j h = refl
  update_at (slot ∷ slots) zero g zero h = ground arith
  update_at (slot ∷ slots) zero g (suc j) h = ground arith
  update_at (slot ∷ slots) (suc i) g zero h = ground arith
  update_at (slot ∷ slots) (suc i) g (suc j) h = ground (arith, update_at slots i g j h)

pub release_anchor-slots : (a : Aggregator) (k : CondenseKey) → (release_anchor a k).slots ≡ a.slots
unfolding release_anchor
release_anchor-slots a k = ground arith

release_anchors-slots :
    (a : Aggregator) (parent : Option StreamId) (p : ProtocolName) (cs : List CondenseCandidate)
    → (release_anchors a parent p cs).slots ≡ a.slots
unfolding release_anchors
release_anchors-slots a parent p [] = refl
release_anchors-slots a parent p (c ∷ cs) =
    release_anchors-slots (release_anchor a (group_key parent p c.anchor)) parent p cs
    ∙ release_anchor-slots a (group_key parent p c.anchor)

pub condense_evict-slots : (a : Aggregator) (s : Stream) → (condense_evict a s).slots ≡ a.slots
unfolding condense_evict
condense_evict-slots a s = elim (Option-cases (anchors_of a s)) [
  | inl e ↦ ground arith
  | inr (cs, e) ↦ ground (arith, release_anchors-slots a s.parent s.protocol cs)
]

pub unindex-slots : (a : Aggregator) (s : Stream) (id : StreamId) → (unindex a s id).slots ≡ a.slots
unfolding unindex
unindex-slots a s id = ground arith

pub rearm-slots : (a : Aggregator) (p : StreamId) → (rearm a p).slots ≡ a.slots
unfolding rearm push_expiry push_lru
rearm-slots a p = ground arith

pub emit-slots : (a : Aggregator) (s : Stream) (r : CloseReason) → (emit a s r).slots ≡ a.slots
unfolding emit
emit-slots a s r = ground arith

-- The slots behind the removal of a child from its parent.
abbrev pub unlinked : List Slot → Option StreamId → StreamId → List Slot
unlinked slots none id = slots
unlinked slots (some p) id = modify_slot slots p (drop_child id)

-- A stream behind the removal of a child of `parent`.
abbrev pub without_child : Option StreamId → StreamId → StreamId → Stream → Stream
without_child none id j t = t
without_child (some p) id j t = if same_handle p j then drop_child id t else t

pub unlink-slots :
    (a : Aggregator) (parent : Option StreamId) (id : StreamId)
    → (unlink a parent id).slots ≡ unlinked a.slots parent id
unfolding unlink modify
unlink-slots a none id = refl
unlink-slots a (some p) id = rearm-slots (modify a p (drop_child id)) p

pub evict-slots :
    (a : Aggregator) (id : StreamId) (reason : CloseReason) (s : Stream) (slots : List Slot)
    → take_slot a.slots id ≡ some (s, slots)
    → (evict a id reason).slots ≡ unlinked slots s.parent id
unfolding evict
evict-slots a id reason s slots h =
    let u = uncount a s slots id.index in
    let v = condense_evict u s in
    let w = unindex v s id in
    rw (h, evict)
      (emit-slots (unlink w s.parent id) s reason
        ∙ unlink-slots w s.parent id
        ∙ ap (λ xs. unlinked xs s.parent id) (unindex-slots v s id ∙ condense_evict-slots u s))

-- The slots without the stream of a handle.
abbrev pub vacated : List Slot → StreamId → List Slot
vacated slots id = set slots id.index (record { generation = add32 id.generation 1; stream = none })

pub take_slot-get :
    (slots : List Slot) (id : StreamId) (s : Stream)
    → get_slot slots id ≡ some s
    → take_slot slots id ≡ some (s, vacated slots id)
unfolding take_slot get_slot
take_slot-get slots id s h = ground arith

pub vacated_other :
    (slots : List Slot) (id j : StreamId)
    → id.index ≢ j.index
    → get_slot (vacated slots id) j ≡ get_slot slots j
unfolding get_slot
vacated_other slots id j ne =
    rw
      (
        get_elem?-set_ne slots id.index j.index
            (record { generation = add32 id.generation 1; stream = none }) ne,
        get_slot,
      )
      refl

pub unlinked-get :
    (slots : List Slot) (parent : Option StreamId) (id j : StreamId)
    → get_slot (unlinked slots parent id) j
      ≡ (elim (get_slot slots j) [ none ↦ none | some t ↦ some (without_child parent id j t) ])
unlinked-get slots none id j = ground arith
unlinked-get slots (some p) id j =
    update_at (drop_child id) slots p.index p.generation j.index j.generation

-- The eviction of a stream leaves every stream of another slot as it was, except that the parent
-- loses the child.
pub evict-get_other :
    (a : Aggregator) (id : StreamId) (reason : CloseReason) (s : Stream) (j : StreamId)
    → get a id ≡ some s
    → id.index ≢ j.index
    → get (evict a id reason) j
      ≡ (elim (get a j) [ none ↦ none | some t ↦ some (without_child s.parent id j t) ])
unfolding get
evict-get_other a id reason s j h ne =
    rw
      (
        evict-slots a id reason s (vacated a.slots id) (take_slot-get a.slots id s h),
        unlinked-get (vacated a.slots id) s.parent id j,
        vacated_other a.slots id j ne,
      )
      refl
