-- ===== src/Flows/Store/Sweep.antt =====
-- The sweep runs to its end on the fuel it is given (sweep of crates/pktflow-flows/src/store.rs).
use pktflow.Prelude.{
  ℕ, zero, suc, ◌+◌, ◌≤◌, ◌<◌, ◌≡◌, refl, ◌∙◌, List, [], ◌∷◌, false, Option, none, some, ltb, arith,
  Bool-cases, Option-cases, List-cases, inl, inr,
}
use mathlib.Core.Path.{subst}
use pktflow.Core.Packet.{SystemTime, ProtocolName}
use pktflow.Flows.Store.{
  StreamId, CloseReason, live, Stream, Expiry, Aggregator, CondenseKey, get, modify,
}
use pktflow.Flows.Store.Create.{push_heap, expiry_le, push_expiry, push_lru}
use pktflow.Flows.Store.Condense.{
  group_key, anchors_of, condense_evict, release_anchor, release_anchors,
}
use pktflow.Flows.Store.Candidates.{CondenseCandidate}
use pktflow.Flows.Store.Evict.{
  deadline_of, uncount, unindex, rearm, unlink, emit, evict, drop_child, sweep_reason, sweep_entry,
  sweep_on, sweep_fuel, sweep,
}
use pktflow.Flows.Store.Slots.{vacated, evict-slots, take_slot-get}
use pktflow.Flows.Store.Occupancy.{
  due, occupied, due-push_heap, due_le, occupied_le, occupied-unlinked, occupied-vacated,
}

-- What the steps of an eviction do to the clock and the expiry heap.
abbrev SameTime : Aggregator → Aggregator → Type 0
SameTime a b = (b.clock ≡ a.clock) × (b.expiry ≡ a.expiry)

release_anchor-SameTime : (a : Aggregator) (k : CondenseKey) → SameTime a (release_anchor a k)
unfolding release_anchor
release_anchor-SameTime a k = ground arith

release_anchors-SameTime :
    (a : Aggregator) (parent : Option StreamId) (p : ProtocolName) (cs : List CondenseCandidate)
    → SameTime a (release_anchors a parent p cs)
unfolding release_anchors
release_anchors-SameTime a parent p [] = (refl, refl)
release_anchors-SameTime a parent p (c ∷ cs) =
    let (t, e) = release_anchor-SameTime a (group_key parent p c.anchor) in
    let (t', e') =
      release_anchors-SameTime (release_anchor a (group_key parent p c.anchor)) parent p cs in
    (t' ∙ t, e' ∙ e)

condense_evict-SameTime : (a : Aggregator) (s : Stream) → SameTime a (condense_evict a s)
unfolding condense_evict
condense_evict-SameTime a s = elim (Option-cases (anchors_of a s)) [
  | inl e ↦ ground arith
  | inr (cs, e) ↦ ground (arith, release_anchors-SameTime a s.parent s.protocol cs)
]

unindex-SameTime : (a : Aggregator) (s : Stream) (id : StreamId) → SameTime a (unindex a s id)
unfolding unindex
unindex-SameTime a s id = ground arith

rearm-expiry :
    (a : Aggregator) (p : StreamId)
    → (rearm a p).expiry
      ≡ (elim (deadline_of a p) [ none ↦ a.expiry | some t ↦ push_heap expiry_le (t, p) a.expiry ])
unfolding rearm push_expiry push_lru
rearm-expiry a p = ground arith

rearm-clock : (a : Aggregator) (p : StreamId) → (rearm a p).clock ≡ a.clock
unfolding rearm push_expiry push_lru
rearm-clock a p = ground arith

rearm-due :
    (a : Aggregator) (p : StreamId) (now : SystemTime)
    → due now (rearm a p).expiry ≤ suc (due now a.expiry)
rearm-due a p now = elim (Option-cases (deadline_of a p)) [
  | inl e ↦ rw (rearm-expiry a p, e) (omega arith)
  | inr (t, e) ↦ rw (rearm-expiry a p, e, due-push_heap now t p a.expiry) (ground arith)
]

unlink-due :
    (a : Aggregator) (parent : Option StreamId) (id : StreamId) (now : SystemTime)
    → ((unlink a parent id).clock ≡ a.clock)
      × (due now (unlink a parent id).expiry ≤ suc (due now a.expiry))
unfolding unlink modify
unlink-due a none id now = (refl, omega arith)
unlink-due a (some p) id now =
    (rearm-clock (modify a p (drop_child id)) p, rearm-due (modify a p (drop_child id)) p now)

emit-SameTime : (a : Aggregator) (s : Stream) (r : CloseReason) → SameTime a (emit a s r)
unfolding emit
emit-SameTime a s r = ground arith

-- An eviction frees a slot, adds at most one entry, and does not turn the clock.
evict-measure :
    (a : Aggregator) (id : StreamId) (reason : CloseReason) (s : Stream)
    → get a id ≡ some s
    → ((evict a id reason).clock ≡ a.clock)
      × (suc (occupied (evict a id reason).slots) ≡ occupied a.slots)
      × (due a.clock (evict a id reason).expiry ≤ suc (due a.clock a.expiry))
unfolding get evict
evict-measure a id reason s h =
    let slots = vacated a.slots id in
    let taken = take_slot-get a.slots id s h in
    let u = uncount a s slots id.index in
    let v = condense_evict u s in
    let w = unindex v s id in
    let x = unlink w s.parent id in
    let (c1, e1) = condense_evict-SameTime u s in
    let (c2, e2) = unindex-SameTime v s id in
    let (c3, e3) = unlink-due w s.parent id a.clock in
    let (c4, e4) = emit-SameTime x s reason in
    (
      rw (taken, evict) (c4 ∙ c3 ∙ c2 ∙ c1),
      rw (evict-slots a id reason s slots taken, occupied-unlinked slots s.parent id)
          (occupied-vacated a.slots id.index id.generation s h),
      rw (taken, evict) (rw e4 (rw (e2 ∙ e1) at e3)),
    )

abbrev measure : Aggregator → SystemTime → ℕ
measure a now = due now a.expiry + occupied a.slots

sweep_entry-measure :
    (a : Aggregator) (id : StreamId) (linger : ℕ)
    → ((sweep_entry a id linger).clock ≡ a.clock)
      × (measure (sweep_entry a id linger) a.clock ≤ measure a a.clock)
unfolding sweep_entry
sweep_entry-measure a id linger = elim (Option-cases (deadline_of a id)) [
  | inl e ↦ rw (e, sweep_entry) (refl, omega arith)
  | inr (actual, e) ↦ elim (Bool-cases (ltb a.clock actual)) [
    | inl later ↦
        rw (e, later, sweep_entry)
          (refl, rw (due-push_heap a.clock actual id a.expiry) (ground arith))
    | inr now ↦ elim (Option-cases (get a id)) [
      | inl gone ↦ rw (e, now, gone, sweep_entry) (refl, omega arith)
      | inr (s, found) ↦ elim (List-cases s.children) [
        | inl leaf ↦
            let (clock, slots, entries) =
              evict-measure a id (sweep_reason s linger a.clock) s found in
            rw (e, now, found, leaf, sweep_entry) (clock, omega arith)
        | inr (c, cs, inner) ↦ rw (e, now, found, inner, sweep_entry) (refl, omega arith)
      ]
    ]
  ]
]

-- The heap has no entry that is due at its head.
pub IsSwept : SystemTime → List Expiry → Type 0
IsSwept now [] = Unit {0}
IsSwept now ((t, id) ∷ rest) = now < t

pop-measure :
    (a : Aggregator) (now t : SystemTime) (id : StreamId) (rest : List Expiry)
    → a.expiry ≡ (t, id) ∷ rest
    → ltb now t ≡ false
    → suc (measure (record a { expiry = rest }) now) ≡ measure a now
unfolding due
pop-measure a now t id rest e h = rw e (ground arith)

-- `sweep_entry-measure`, with the clock named.
sweep_entry_lem :
    (a : Aggregator) (id : StreamId) (linger : ℕ) (now : SystemTime)
    → a.clock ≡ now
    → ((sweep_entry a id linger).clock ≡ now)
      × (measure (sweep_entry a id linger) now ≤ measure a now)
sweep_entry_lem a id linger now c =
    let (clock, less) = sweep_entry-measure a id linger in
    (clock ∙ c, subst (λ z. measure (sweep_entry a id linger) z ≤ measure a z) c less)

sweep_on-IsSwept :
    (fuel : ℕ) (a : Aggregator) (linger : ℕ) (now : SystemTime)
    → a.clock ≡ now
    → measure a now < fuel
    → IsSwept now (sweep_on fuel a linger).expiry
unfolding sweep_on IsSwept
sweep_on-IsSwept zero a linger now c h = absurd (omega arith)
sweep_on-IsSwept (suc fuel) a linger now c h = elim (List-cases a.expiry) [
  | inl e ↦ rw (e, sweep_on) (rw e tt)
  | inr ((t, id), rest, e) ↦ elim (Bool-cases (ltb a.clock t)) [
    | inl later ↦ rw (e, later, sweep_on) (rw e (ground arith))
    | inr past ↦
        let b : Aggregator = record a { expiry = rest } in
        let (clock, less) = sweep_entry_lem b id linger now c in
        let popped = pop-measure a now t id rest e (ground arith) in
        rw (e, past, sweep_on)
          (sweep_on-IsSwept fuel (sweep_entry b id linger) linger now clock (omega arith))
  ]
]

-- The sweep of the live policy runs until the earliest deadline of the expiry heap, if there is
-- one, lies behind the packet clock: its fuel never runs out.
pub sweep-IsSwept :
    (a : Aggregator) (idle linger max_streams : ℕ)
    → a.config.eviction ≡ live idle linger max_streams
    → IsSwept a.clock (sweep a).expiry
unfolding sweep
sweep-IsSwept a idle linger max_streams h =
    rw (h, sweep)
      (sweep_on-IsSwept (sweep_fuel a) a linger a.clock refl
        (omega (arith, due_le a.clock a.expiry, occupied_le a.slots)))
