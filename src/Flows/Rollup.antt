-- ===== src/Flows/Rollup.antt =====
-- Metadata rollups (crates/pktflow-flows/src/rollup.rs). A `VecDeque` is a list with its front at
-- the head.
pub mod History
use pktflow.Prelude.{
  ℕ, ◌+◌, ◌-◌, ◌^◌, ◌*◌, List, [], ◌∷◌, ◌++◌, Bool, true, false, Option, none, some, length, min,
  max, leb, ltb, ◌==◌, ◌≟◌, string_eq, contains, if◌then◌else◌,
}
use pktflow.Prelude.Int.{ℤ, pos, negsuc}
use pktflow.Prelude.Words.{add64}
use pktflow.Core.Value.{Value, value_eq, FieldName, FieldMap, get}
use pktflow.Core.Packet.{SystemTime}
use pktflow.Core.Stream.{PacketDirection, RollupKind, accumulate, sample, series, RollupSpec}

abbrev pub accumulate_set_cap : ℕ
accumulate_set_cap = 64

pub record SeriesPoint : Type 0 where
  pub ts_offset_nanos : ℤ
  pub dir : PacketDirection
  pub value : Value

-- `SeriesPoint::new`: the signed distance from `base` in nanoseconds, saturated to an i64.
unfoldable pub ts_offset : SystemTime → SystemTime → ℤ
ts_offset base ts =
    if leb base ts
    then (if ltb (ts - base) (2 ^ 63) then pos (ts - base) else pos (2 ^ 63 - 1))
    else (if ltb (base - ts) (2 ^ 63) then negsuc (base - ts - 1) else negsuc (2 ^ 63 - 1))

unfoldable pub new_point : SystemTime → SystemTime → PacketDirection → Value → SeriesPoint
unfolding ts_offset
new_point base ts dir value = record {
  ts_offset_nanos = ts_offset base ts;
  dir = dir;
  value = value;
}

-- `SeriesPoint::ts`
unfoldable pub point_ts : SeriesPoint → SystemTime → SystemTime
point_ts p base = elim p.ts_offset_nanos [ pos n ↦ base + n | negsuc n ↦ base - (n + 1) ]

pub data Rollup : Type 0 where
  accumulated : (values : List Value) (count : ℕ) (overflow : Bool) → Rollup
  sampled : (first last : Option Value) → Rollup
  series_of : (ring : List SeriesPoint) (cap : ℕ) (truncated : Bool) → Rollup

abbrev pub RollupSet : Type 0
RollupSet = List (FieldName × Rollup)

-- `series_max_cap.map_or(cap, |clamp| cap.min(clamp.max(1)))`
abbrev pub clamp_cap : ℕ → Option ℕ → ℕ
clamp_cap cap none = cap
clamp_cap cap (some clamp) = min cap (max clamp 1)

unfoldable pub empty_rollup : RollupKind → ℕ → Option ℕ → Rollup
empty_rollup accumulate default_cap max_cap = accumulated [] 0 false
empty_rollup sample default_cap max_cap = sampled none none
empty_rollup (series cap) default_cap max_cap =
    series_of [] (clamp_cap (if cap == 0 then default_cap else cap) max_cap) false

-- `RollupSet::new`
unfoldable pub new_set : List RollupSpec → ℕ → Option ℕ → RollupSet
unfolding empty_rollup
new_set [] default_cap max_cap = []
new_set (spec ∷ specs) default_cap max_cap =
    (spec.field, empty_rollup spec.kind default_cap max_cap) ∷ new_set specs default_cap max_cap

-- `VecDeque::pop_front`
abbrev pub pop_front {ℓ} : {A : Type ℓ} → List A → List A
pop_front [] = []
pop_front (x ∷ xs) = xs

-- One value of a packet, folded into the rollup of its field.
unfoldable pub observe : Rollup → SystemTime → SystemTime → PacketDirection → Value → Rollup
unfolding new_point
observe (accumulated values count overflow) base ts dir v =
    if contains values v
    then accumulated values (add64 count 1) overflow
    else if ltb (length values) accumulate_set_cap
    then accumulated (values ++ v ∷ []) (add64 count 1) overflow
    else accumulated values (add64 count 1) true
observe (sampled none last) base ts dir v = sampled (some v) (some v)
observe (sampled (some first) last) base ts dir v = sampled (some first) (some v)
observe (series_of ring cap truncated) base ts dir v =
    if leb cap (length ring)
    then series_of (pop_front ring ++ new_point base ts dir v ∷ []) cap true
    else series_of (ring ++ new_point base ts dir v ∷ []) cap truncated

-- `RollupSet::apply`: a field that the packet lacks changes nothing.
unfoldable pub apply : RollupSet → FieldMap → SystemTime → SystemTime → PacketDirection → RollupSet
unfolding observe get
apply [] fields base ts dir = []
apply ((field, rollup) ∷ rest) fields base ts dir = elim (get fields field) [
  | none ↦ (field, rollup) ∷ apply rest fields base ts dir
  | some v ↦ (field, observe rollup base ts dir v) ∷ apply rest fields base ts dir
]

-- `RollupSet::get`
unfoldable pub find : RollupSet → FieldName → Option Rollup
find [] field = none
find ((name, r) ∷ rest) field = if name ≟ field then some r else find rest field
