-- ===== src/Flows/Store/Handles.antt =====
-- The handle of an evicted stream stays dead (crates/pktflow-flows/src/store.rs).
use pktflow.Prelude.{
  ℕ, zero, suc, ◌^◌, ◌<◌, ◌≡◌, ◌≢◌, refl, ◌∙◌, List, [], ◌∷◌, ◌++◌, Option, none, some, get_elem?,
  set, get_elem?-set_self, length, arith, Option-cases, inl, inr,
}
use pktflow.Prelude.Words.{add32}
use pktflow.Core.Packet.{ProtocolName, SystemTime}
use pktflow.Core.Stream.{PacketDirection, StateName, FlowKey, flow_key_eq}
use pktflow.Flows.Store.{
  StreamId, stream_id_eq, index_key_eq, CloseReason, CondensedInfo, Stream, Slot, Aggregator,
  get_slot, get, modify_slot,
}
use pktflow.Core.Value.{FieldMap}
use pktflow.Flows.Rollup.{RollupSet}
use pktflow.Flows.Store.Create.{
  next_id, new_stream, fill_slot, store_stream, link, push_child, arm_new, create_stream_raw,
}
use pktflow.Flows.Store.Evict.{evict, drop_child}
use pktflow.Flows.Store.Slots.{handle, vacated, unlinked, evict-slots, take_slot-get}

unfoldable pub generation_at : List Slot → ℕ → Option ℕ
generation_at slots i = elim (get_elem? slots i) [ none ↦ none | some slot ↦ some slot.generation ]

-- The slot of the handle is there, with another generation than the handle's.
pub IsRetired : List Slot → StreamId → Type 0
IsRetired slots id = (g : ℕ) × (generation_at slots id.index ≡ some g) × (g ≢ id.generation)

IsRetired-get : (slots : List Slot) (id : StreamId) → IsRetired slots id → get_slot slots id ≡ none
unfolding IsRetired get_slot generation_at
IsRetired-get slots id (g, e, ne) = ground arith

-- An update keeps the generations.
module _ (f : Stream → Stream) where
  update_generation :
      (slots : List Slot) (i g j : ℕ)
      → generation_at (modify_slot slots (handle i g) f) j ≡ generation_at slots j
  unfolding modify_slot generation_at
  update_generation [] i g j = refl
  update_generation (x ∷ slots) zero g zero = ground arith
  update_generation (x ∷ slots) zero g (suc j) = ground arith
  update_generation (x ∷ slots) (suc i) g zero = refl
  update_generation (x ∷ slots) (suc i) g (suc j) = update_generation slots i g j

unlinked-generation :
    (slots : List Slot) (parent : Option StreamId) (id : StreamId) (j : ℕ)
    → generation_at (unlinked slots parent id) j ≡ generation_at slots j
unlinked-generation slots none id j = refl
unlinked-generation slots (some p) id j =
    update_generation (drop_child id) slots p.index p.generation j

get_elem?_lt {ℓ} :
    {A : Type ℓ} (xs : List A) (i : ℕ) (x : A) → get_elem? xs i ≡ some x → i < length xs
get_elem?_lt [] i x h = cc
get_elem?_lt (y ∷ xs) zero x h = omega arith
get_elem?_lt (y ∷ xs) (suc i) x h = omega (arith, get_elem?_lt xs i x h)

occupied_lt :
    (slots : List Slot) (id : StreamId) (s : Stream)
    → get_slot slots id ≡ some s
    → id.index < length slots
unfolding get_slot
occupied_lt slots id s h = elim (Option-cases (get_elem? slots id.index)) [
  | inl e ↦ cc (rw (e, get_slot) at h)
  | inr (slot, e) ↦ get_elem?_lt slots id.index slot e
]

generation_at-vacated :
    (slots : List Slot) (id : StreamId) (s : Stream)
    → get_slot slots id ≡ some s
    → generation_at (vacated slots id) id.index ≡ some (add32 id.generation 1)
unfolding get_slot generation_at
generation_at-vacated slots id s h =
    rw
      (
        get_elem?-set_self slots id.index
            (record { generation = add32 id.generation 1; stream = none })
            (occupied_lt slots id s h),
        generation_at,
      )
      refl

evict-IsRetired :
    (a : Aggregator) (id : StreamId) (reason : CloseReason) (s : Stream)
    → get a id ≡ some s
    → id.generation < 2 ^ 32
    → IsRetired (evict a id reason).slots id
unfolding IsRetired get
evict-IsRetired a id reason s h small = (
  add32 id.generation 1,
  rw (evict-slots a id reason s (vacated a.slots id) (take_slot-get a.slots id s h)) (
      unlinked-generation (vacated a.slots id) s.parent id id.index
      ∙ generation_at-vacated a.slots id s h),
  λ e. ground arith,
)

generation_at-some :
    (slots : List Slot) (j g : ℕ)
    → generation_at slots j ≡ some g
    → (slot : Slot) × (get_elem? slots j ≡ some slot) × (slot.generation ≡ g)
unfolding generation_at
generation_at-some slots j g h = elim (Option-cases (get_elem? slots j)) [
  | inl e ↦ cc (rw (e, generation_at) at h)
  | inr (slot, e) ↦ (slot, e, ground arith)
]

-- A slot that is there keeps its generation when a stream is stored.
set_generation :
    (slots : List Slot) (i j : ℕ) (slot : Slot) (s : Stream)
    → get_elem? slots i ≡ some slot
    → generation_at (set slots i (record slot { stream = some s })) j ≡ generation_at slots j
unfolding generation_at
set_generation [] i j slot s h = refl
set_generation (x ∷ slots) zero zero slot s h = ground arith
set_generation (x ∷ slots) zero (suc j) slot s h = refl
set_generation (x ∷ slots) (suc i) zero slot s h = refl
set_generation (x ∷ slots) (suc i) (suc j) slot s h = set_generation slots i j slot s h

append_generation :
    (slots more : List Slot) (j g : ℕ)
    → generation_at slots j ≡ some g
    → generation_at (slots ++ more) j ≡ some g
unfolding generation_at
append_generation [] more j g h = ground arith
append_generation (x ∷ slots) more zero g h = h
append_generation (x ∷ slots) more (suc j) g h = append_generation slots more j g h

fill_slot-generation :
    (slots : List Slot) (i : ℕ) (s : Stream) (j g : ℕ)
    → generation_at slots j ≡ some g
    → generation_at (fill_slot slots i s) j ≡ some g
unfolding fill_slot
fill_slot-generation slots i s j g h = elim (Option-cases (get_elem? slots i)) [
  | inl e ↦
      rw (e, fill_slot)
        (append_generation slots (record { generation = 0; stream = some s } ∷ []) j g h)
  | inr (slot, e) ↦ rw (e, fill_slot) (set_generation slots i j slot s e ∙ h)
]

link-generation :
    (a : Aggregator) (parent : Option StreamId) (id : StreamId) (j : ℕ)
    → generation_at (link a parent id).slots j ≡ generation_at a.slots j
unfolding link
link-generation a none id j = refl
link-generation a (some p) id j = elim (Option-cases (get a p)) [
  | inl e ↦ rw (e, link) refl
  | inr (s, e) ↦ rw (e, link) (update_generation (push_child id) a.slots p.index p.generation j)
]

arm_new-slots :
    (a : Aggregator) (id : StreamId) (seq : ℕ) (ts : SystemTime)
    → (arm_new a id seq ts).slots ≡ a.slots
unfolding arm_new
arm_new-slots a id seq ts = ground arith

-- Where a handle has been retired, storing any new stream keeps it so.
create_stream_raw-IsRetired :
    (a : Aggregator) (id : StreamId) (parent : Option StreamId) (key : FlowKey)
    (key_fields : FieldMap) (state : Option StateName) (rollups : RollupSet)
    (condensed : Option CondensedInfo) (dir : PacketDirection) (protocol : ProtocolName)
    (ts : SystemTime)
    → IsRetired a.slots id
    → IsRetired
        ((create_stream_raw a parent key key_fields state rollups condensed dir protocol ts).0
          ).slots
        id
unfolding create_stream_raw IsRetired store_stream
create_stream_raw-IsRetired a id parent key key_fields state rollups condensed dir protocol ts
      (g, e, ne) =
    let (new, free) = next_id a in
    let s =
      new_stream new a.next_seq parent key key_fields state rollups condensed dir protocol ts in
    let b = store_stream a s free in
    (
      g,
      rw (arm_new-slots (link b parent new) new a.next_seq ts) (
          link-generation b parent new id.index
          ∙ fill_slot-generation a.slots new.index s id.index g e),
      ne,
    )

-- The handle of an evicted stream finds nothing, neither at once nor behind the creation of any
-- other stream, whether this takes the freed slot or not.
pub evict-create_stream_raw-get :
    (a : Aggregator) (id : StreamId) (reason : CloseReason) (s : Stream) (parent : Option StreamId)
    (key : FlowKey) (key_fields : FieldMap) (state : Option StateName) (rollups : RollupSet)
    (condensed : Option CondensedInfo) (dir : PacketDirection) (protocol : ProtocolName)
    (ts : SystemTime)
    → get a id ≡ some s
    → id.generation < 2 ^ 32
    → (get (evict a id reason) id ≡ none)
      × (get
            ((create_stream_raw
              (evict a id reason)
              parent
              key
              key_fields
              state
              rollups
              condensed
              dir
              protocol
              ts).0)
            id
          ≡ none)
unfolding get
evict-create_stream_raw-get a id reason s parent key key_fields state rollups condensed dir protocol
      ts h small =
    let b = evict a id reason in
    let gone = evict-IsRetired a id reason s h small in
    let c = (create_stream_raw b parent key key_fields state rollups condensed dir protocol ts).0 in
    (
      IsRetired-get b.slots id gone,
      IsRetired-get c.slots id (
          create_stream_raw-IsRetired b id parent key key_fields state rollups condensed dir
            protocol ts gone),
    )
