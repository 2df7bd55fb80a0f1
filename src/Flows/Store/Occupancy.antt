-- ===== src/Flows/Store/Occupancy.antt =====
-- The due entries of the expiry heap, and the streams in the slots
-- (crates/pktflow-flows/src/store.rs).
use pktflow.Prelude.{
  ℕ, zero, suc, ◌+◌, ◌≤◌, ◌≡◌, refl, List, [], ◌∷◌, Option, none, some, length, leb, arith,
  if◌then◌else◌, Bool-cases, inl, inr,
}
use pktflow.Core.Packet.{SystemTime}
use pktflow.Flows.Store.{StreamId, Stream, Slot, Expiry, get_slot, modify_slot}
use pktflow.Flows.Store.Create.{push_heap, expiry_le}
use pktflow.Flows.Store.Evict.{drop_child}
use pktflow.Flows.Store.Slots.{handle, vacated, unlinked}

-- The entries of the expiry heap that are due, and the streams in the slots.
unfoldable pub due : SystemTime → List Expiry → ℕ
due now [] = 0
due now ((t, id) ∷ rest) = (if leb t now then 1 else 0) + due now rest

unfoldable pub occupied : List Slot → ℕ
occupied [] = 0
occupied (slot ∷ slots) = (elim slot.stream [ none ↦ 0 | some s ↦ 1 ]) + occupied slots

pub due-push_heap :
    (now : SystemTime) (t : SystemTime) (id : StreamId) (h : List Expiry)
    → due now (push_heap expiry_le (t, id) h) ≡ (if leb t now then 1 else 0) + due now h
unfolding due push_heap
due-push_heap now t id [] = refl
due-push_heap now t id ((u, j) ∷ h) = elim (Bool-cases (expiry_le (t, id) (u, j))) [
  | inl e ↦ rw e refl
  | inr e ↦ rw e (omega (arith, due-push_heap now t id h))
]

pub due_le : (now : SystemTime) (h : List Expiry) → due now h ≤ length h
unfolding due
due_le now [] = omega arith
due_le now ((t, id) ∷ h) = ground (arith, due_le now h)

pub occupied_le : (slots : List Slot) → occupied slots ≤ length slots
unfolding occupied
occupied_le [] = omega arith
occupied_le (slot ∷ slots) = ground (arith, occupied_le slots)

occupied-modify_slot :
    (slots : List Slot) (i g : ℕ) (f : Stream → Stream)
    → occupied (modify_slot slots (handle i g) f) ≡ occupied slots
unfolding occupied modify_slot
occupied-modify_slot [] i g f = refl
occupied-modify_slot (slot ∷ slots) zero g f = ground arith
occupied-modify_slot (slot ∷ slots) (suc i) g f = ground (arith, occupied-modify_slot slots i g f)

pub occupied-unlinked :
    (slots : List Slot) (parent : Option StreamId) (id : StreamId)
    → occupied (unlinked slots parent id) ≡ occupied slots
occupied-unlinked slots none id = refl
occupied-unlinked slots (some p) id =
    occupied-modify_slot slots p.index p.generation (drop_child id)

pub occupied-vacated :
    (slots : List Slot) (i g : ℕ) (s : Stream)
    → get_slot slots (handle i g) ≡ some s
    → suc (occupied (vacated slots (handle i g))) ≡ occupied slots
unfolding occupied get_slot
occupied-vacated [] i g s h = cc
occupied-vacated (slot ∷ slots) zero g s h = ground arith
occupied-vacated (slot ∷ slots) (suc i) g s h = omega (arith, occupied-vacated slots i g s h)
