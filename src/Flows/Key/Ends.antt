-- ===== src/Flows/Key/Ends.antt =====
-- The values that a packet has for a flow key, before they are encoded (collect of
-- crates/pktflow-flows/src/key.rs).
use pktflow.Prelude.{
  ℕ, suc, ◌+◌, ◌≡◌, List, [], ◌∷◌, ◌++◌, Option, none, some, length, length-append, arith,
}
use pktflow.Prelude.Result.{ok}
use pktflow.Core.Value.{Value, FieldMap, get}
use pktflow.Core.Stream.{KeyField}
use pktflow.Flows.Key.{Sides, add_component, collect}
use pktflow.Flows.Key.Encoding.{EachInRange, encode_all, encode_all-append}

-- The values that a packet has for a key, before they are encoded.
pub record Ends : Type 0 where
  pub shared : List Value
  pub a : List Value
  pub b : List Value

abbrev pub no_ends : Ends
no_ends = record { shared = []; a = []; b = [] }

pub record IsInRange (e : Ends) : Type 0 where
  pub shared : EachInRange e.shared
  pub a : EachInRange e.a
  pub b : EachInRange e.b

abbrev add_ends : Option Value → Option (Option Value) → Ends → Option Ends
add_ends none w e = none
add_ends (some v) none e = some (record e { shared = e.shared ++ v ∷ [] })
add_ends (some v) (some none) e = none
add_ends (some v) (some (some w)) e = some (record e { a = e.a ++ v ∷ []; b = e.b ++ w ∷ [] })

unfoldable pub component_ends : FieldMap → KeyField → Ends → Option Ends
component_ends f kf e =
    add_ends (get f kf.a) (elim kf.b [ none ↦ none | some b ↦ some (get f b) ]) e

-- `none` where a field is missing.
unfoldable pub ends_from : FieldMap → List KeyField → Ends → Option Ends
ends_from f [] e = some e
ends_from f (kf ∷ kfs) e = elim (component_ends f kf e) [
  | none ↦ none
  | some e' ↦ ends_from f kfs e'
]

unfoldable pub ends : FieldMap → List KeyField → Option Ends
unfolding ends_from
ends f kfs = ends_from f kfs no_ends

abbrev pub encoded : Ends → Sides
encoded e = record {
  shared = encode_all e.shared;
  side_a = encode_all e.a;
  side_b = encode_all e.b;
}

add_component-ends :
    (f : FieldMap) (kf : KeyField) (e e' : Ends)
    → component_ends f kf e ≡ some e'
    → add_component f kf (encoded e) ≡ ok (encoded e')
unfolding component_ends add_component
add_component-ends f kf e e' h = grind (arith, encode_all-append)

component_ends-inv :
    (f : FieldMap) (kf : KeyField) (kfs : List KeyField) (e e' : Ends)
    → ends_from f (kf ∷ kfs) e ≡ some e'
    → (u : Ends) × (component_ends f kf e ≡ some u) × (ends_from f kfs u ≡ some e')
unfolding ends_from
component_ends-inv f kf kfs e e' h = ground arith

pub collect-ends :
    (f : FieldMap) (kfs : List KeyField) (e e' : Ends)
    → ends_from f kfs e ≡ some e'
    → collect f kfs (encoded e) ≡ ok (encoded e')
unfolding collect
collect-ends f [] e e' h = unfold ends_from in ground arith
collect-ends f (kf ∷ kfs) e e' h =
    let (u, first, rest) = component_ends-inv f kf kfs e e' h in
    rw (add_component-ends f kf e u first) (collect-ends f kfs u e' rest)

-- How many values a key takes: unpaired components, and pairs.
abbrev pub unpaired : List KeyField → ℕ
unpaired [] = 0
unpaired (kf ∷ kfs) = elim kf.b [ none ↦ suc (unpaired kfs) | some b ↦ unpaired kfs ]

abbrev pub paired : List KeyField → ℕ
paired [] = 0
paired (kf ∷ kfs) = elim kf.b [ none ↦ paired kfs | some b ↦ suc (paired kfs) ]

pub record HasLengths (s p : ℕ) (e : Ends) : Type 0 where
  pub shared : length e.shared ≡ s
  pub a : length e.a ≡ p
  pub b : length e.b ≡ p

component_ends-lengths :
    (f : FieldMap) (kf : KeyField) (e e' : Ends) (s p : ℕ)
    → HasLengths s p e
    → component_ends f kf e ≡ some e'
    → HasLengths (s + unpaired (kf ∷ [])) (p + paired (kf ∷ [])) e'
unfolding component_ends
component_ends-lengths f kf e e' s p l h = grind (arith, length-append)

pub ends-lengths :
    (f : FieldMap) (kfs : List KeyField) (e e' : Ends) (s p : ℕ)
    → HasLengths s p e
    → ends_from f kfs e ≡ some e'
    → HasLengths (s + unpaired kfs) (p + paired kfs) e'
ends-lengths f [] e e' s p l h = unfold ends_from in ground arith
ends-lengths f (kf ∷ kfs) e e' s p l h =
    let (u, first, rest) = component_ends-inv f kf kfs e e' h in
    let next = component_ends-lengths f kf e u s p l first in
    ground
      (arith, ends-lengths f kfs u e' (s + unpaired (kf ∷ [])) (p + paired (kf ∷ [])) next rest)
