-- ===== src/Flows/Key/Symmetry.antt =====
-- A reply has the flow key of its request (crates/pktflow-flows/src/key.rs, D3): the key does not
-- depend on which side sent the packet, and the direction does.
use pktflow.Prelude.{
  ℕ, ◌≡◌, refl, List, [], ◌∷◌, true, false, none, some, if◌then◌else◌, ◌≟◌, bytes_eq, arith,
}
use pktflow.Prelude.Result.{ok, >>=-eq-ok}
use pktflow.Core.Value.{FieldMap, get}
use pktflow.Core.Stream.{PacketDirection, a_to_b, b_to_a, KeyField, endpoint_sort, StreamIdentity}
use pktflow.Flows.Key.{slice_le, Sides, add_component, collect, canonical, no_sides, flow_key}

slice_le_antisymm : (xs ys : List ℕ) → slice_le xs ys ≡ true → slice_le ys xs ≡ true → xs ≡ ys
unfolding slice_le
slice_le_antisymm [] [] h k = refl
slice_le_antisymm [] (y ∷ ys) h k = cc
slice_le_antisymm (x ∷ xs) [] h k = cc
slice_le_antisymm (x ∷ xs) (y ∷ ys) h k = ground (arith, slice_le_antisymm xs ys)

slice_le_total : (xs ys : List ℕ) → slice_le xs ys ≡ false → slice_le ys xs ≡ true
unfolding slice_le
slice_le_total [] ys h = cc
slice_le_total (x ∷ xs) [] h = refl
slice_le_total (x ∷ xs) (y ∷ ys) h = ground (arith, slice_le_total xs ys)

pub slice_le_refl : (xs : List ℕ) → slice_le xs xs ≡ true
unfolding slice_le
slice_le_refl [] = refl
slice_le_refl (x ∷ xs) = ground (arith, slice_le_refl xs)

-- The other direction.
abbrev pub flip : PacketDirection → PacketDirection
flip a_to_b = b_to_a
flip b_to_a = a_to_b

-- The fields of a packet that goes the other way: each pair of the key is exchanged, and what
-- belongs to no endpoint stays.
abbrev pub MirrorsAt : KeyField → FieldMap → FieldMap → Type 0
MirrorsAt kf f g = elim kf.b [
  | none ↦ get g kf.a ≡ get f kf.a
  | some b ↦ (get g kf.a ≡ get f b) × (get g b ≡ get f kf.a)
]

abbrev pub Mirrors : List KeyField → FieldMap → FieldMap → Type 0
Mirrors [] f g = Unit {0}
Mirrors (kf ∷ kfs) f g = MirrorsAt kf f g × Mirrors kfs f g

abbrev swap : Sides → Sides
swap s = record { shared = s.shared; side_a = s.side_b; side_b = s.side_a }

add_component-swap :
    (f g : FieldMap) (kf : KeyField) (s t : Sides)
    → MirrorsAt kf f g
    → add_component f kf s ≡ ok t
    → add_component g kf (swap s) ≡ ok (swap t)
unfolding add_component
add_component-swap f g kf s t m h = ground arith

collect-swap :
    (f g : FieldMap) (kfs : List KeyField) (s t : Sides)
    → Mirrors kfs f g
    → collect f kfs s ≡ ok t
    → collect g kfs (swap s) ≡ ok (swap t)
unfolding collect
collect-swap f g [] s t m h = ground arith
collect-swap f g (kf ∷ kfs) s t m h =
    let (u, first, rest) = >>=-eq-ok (add_component f kf s) (collect f kfs) h in
    rw (add_component-swap f g kf s u m.0 first) (collect-swap f g kfs u t m.1 rest)

canonical-swap :
    (s : Sides)
    → canonical (swap s)
      ≡ ((canonical s).0, if s.side_a ≟ s.side_b then a_to_b else flip (canonical s).1)
unfolding canonical
canonical-swap s = ground (
  arith,
  slice_le_total s.side_a s.side_b,
  slice_le_antisymm s.side_a s.side_b,
  slice_le_refl s.side_a,
)

-- Under endpoint sorting a packet and its mirror image have one key and opposite directions, except
-- that a conversation of an endpoint with itself always runs from A to B.
pub flow_key-mirror :
    (identity : StreamIdentity) (f g : FieldMap) (s : Sides)
    → identity.canonicalize ≡ endpoint_sort
    → Mirrors identity.key f g
    → collect f identity.key no_sides ≡ ok s
    → (flow_key identity f ≡ ok (canonical s))
      × (flow_key identity g
          ≡ ok ((canonical s).0, if s.side_a ≟ s.side_b then a_to_b else flip (canonical s).1))
unfolding flow_key
flow_key-mirror identity f g s sorts m h = (
  rw (sorts, flow_key, h),
  rw (sorts, flow_key) (rw (collect-swap f g identity.key no_sides s m h) (rw canonical-swap)),
)
