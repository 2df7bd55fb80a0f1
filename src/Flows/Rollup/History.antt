-- ===== src/Flows/Rollup/History.antt =====
-- A rollup as a function of the values observed so far (crates/pktflow-flows/src/rollup.rs).
use pktflow.Prelude.{
  ℕ, zero, suc, ◌+◌, ◌-◌, ◌%◌, ◌^◌, ◌≤◌, ◌<◌, ◌≡◌, refl, ap, ◌∙◌, List, [], ◌∷◌, ◌++◌, true, false,
  length, length-append, take, drop, length-drop, length-take, ltb, contains, arith, Bool-cases,
  inl, inr, if◌then◌else◌, dec_lt,
}
use mathlib.Core.List.{append_assoc, append-nil}
use pktflow.Prelude.Words.{add64}
use pktflow.Core.Value.{Value, value_eq}
use pktflow.Core.Packet.{SystemTime}
use pktflow.Core.Stream.{PacketDirection}
use pktflow.Flows.Rollup.{
  SeriesPoint, new_point, point_ts, Rollup, accumulated, series_of, pop_front, observe,
}

-- A series point gives its time back, before or after the stream's first packet, as long as the two
-- are less than 2^63 nanoseconds apart.
pub point_ts-new_point :
    (base ts : SystemTime) (dir : PacketDirection) (v : Value)
    → ts < base + 2 ^ 63
    → base < ts + 2 ^ 63
    → point_ts (new_point base ts dir v) base ≡ ts
unfolding point_ts new_point
point_ts-new_point base ts dir v h k = ground arith

-- An observation: its time, its direction and its value.
pub record Observation : Type 0 where
  pub ts : SystemTime
  pub dir : PacketDirection
  pub value : Value

-- The observations in the order of their packets.
pub observe_all : Rollup → SystemTime → List Observation → Rollup
observe_all r base [] = r
observe_all r base (o ∷ os) = observe_all (observe r base o.ts o.dir o.value) base os

-- The values without repetition, in the order of their first occurrence, behind those known.
pub distinct_from : List Value → List Observation → List Value
distinct_from known [] = known
distinct_from known (o ∷ os) =
    distinct_from (if contains known o.value then known else known ++ o.value ∷ []) os

module _ {ℓ} {A : Type ℓ} where
  take-append_one :
      (n : ℕ) (xs : List A) (x : A)
      → take n (xs ++ x ∷ []) ≡ (if ltb (length xs) n then take n xs ++ x ∷ [] else take n xs)
  take-append_one zero xs x = ground arith
  take-append_one (suc zero) [] x = ground arith
  take-append_one (suc (suc n)) [] x = ground arith
  take-append_one (suc n) (y ∷ xs) x = ground (arith, take-append_one n xs x)

  take_short : (n : ℕ) (xs : List A) → length xs ≤ n → take n xs ≡ xs
  take_short zero [] h = refl
  take_short (suc n) [] h = refl
  take_short zero (x ∷ xs) h = absurd (omega arith)
  take_short (suc n) (x ∷ xs) h = ap (◌∷◌ x) (take_short n xs (omega arith))

contains-take :
    (n : ℕ) (xs : List Value) (v : Value) → contains xs v ≡ false → contains (take n xs) v ≡ false
contains-take zero xs v h = refl
contains-take (suc n) [] v h = refl
contains-take (suc n) (x ∷ xs) v h = ground (arith, contains-take n xs v)

-- The accumulated state for a list of distinct values.
abbrev pub summary : List Value → ℕ → Rollup
summary known count = accumulated (take 64 known) count (ltb 64 (length known))

known_beyond :
    (n : ℕ) (known : List Value) (v : Value)
    → contains known v ≡ true
    → contains (take n known) v ≡ false
    → n < length known
known_beyond n known v h k = elim (dec_lt n (length known)) [
  | yes p ↦ p
  | no p ↦ cc (h, k, take_short n known (ground arith))
]

-- One value that the list holds already, and one that it does not.
old_value :
    (n : ℕ) (known : List Value) (v : Value) (c : ℕ)
    → contains known v ≡ true
    → (if contains (take n known) v
        then accumulated (take n known) c (ltb n (length known))
        else if ltb (length (take n known)) n
        then accumulated (take n known ++ v ∷ []) c (ltb n (length known))
        else accumulated (take n known) c true)
      ≡ accumulated (take n known) c (ltb n (length known))
old_value n known v c h = elim (Bool-cases (contains (take n known) v)) [
  | inl e ↦ rw e refl
  | inr e ↦ rw e (ground (arith, length-take n known, known_beyond n known v h e))
]

new_value :
    (n : ℕ) (known : List Value) (v : Value) (c : ℕ)
    → contains known v ≡ false
    → (if contains (take n known) v
        then accumulated (take n known) c (ltb n (length known))
        else if ltb (length (take n known)) n
        then accumulated (take n known ++ v ∷ []) c (ltb n (length known))
        else accumulated (take n known) c true)
      ≡ accumulated (take n (known ++ v ∷ [])) c (ltb n (length (known ++ v ∷ [])))
new_value n known v c h =
    rw
      (
        contains-take n known v h,
        take-append_one n known v,
        length-append known (v ∷ []),
        length-take n known,
      )
      (elim (dec_lt (length known) n) [ yes p ↦ ground arith | no p ↦ ground arith ])

observe-summary :
    (known : List Value) (count : ℕ) (base : SystemTime) (o : Observation)
    → observe (summary known count) base o.ts o.dir o.value
      ≡ summary (if contains known o.value then known else known ++ o.value ∷ []) (add64 count 1)
unfolding observe
observe-summary known count base o = elim (Bool-cases (contains known o.value)) [
  | inl old ↦ rw old (old_value 64 known o.value (add64 count 1) old)
  | inr new ↦ rw new (new_value 64 known o.value (add64 count 1) new)
]

-- The number of observations, wrapped as the counter does.
counted : ℕ → List Observation → ℕ
counted count [] = count
counted count (o ∷ os) = counted (add64 count 1) os

observe_all-summary :
    (known : List Value) (count : ℕ) (base : SystemTime) (os : List Observation)
    → observe_all (summary known count) base os
      ≡ summary (distinct_from known os) (counted count os)
unfolding observe_all distinct_from counted
observe_all-summary known count base [] = refl
observe_all-summary known count base (o ∷ os) = rw (observe-summary known count base o) (
    observe_all-summary (if contains known o.value then known else known ++ o.value ∷ [])
      (add64 count 1) base os)

counted_lem :
    (count : ℕ) (os : List Observation)
    → count < 2 ^ 64
    → counted count os ≡ (count + length os) % 2 ^ 64
unfolding counted
counted_lem count [] h = ground arith
counted_lem count (o ∷ os) h = ground (arith, counted_lem ((count + 1) % 2 ^ 64) os)

counted_zero : (os : List Observation) → counted 0 os ≡ length os % 2 ^ 64
counted_zero os = ground (arith, counted_lem 0 os)

-- An `Accumulate` rollup holds the first 64 distinct values of its field in the order of their first
-- occurrence, the number of observations modulo 2^64, and the overflow mark exactly if there were
-- more than 64 distinct values.
pub observe_all-accumulated :
    (base : SystemTime) (os : List Observation)
    → observe_all (accumulated [] 0 false) base os
      ≡ accumulated
          (take 64 (distinct_from [] os))
          (length os % 2 ^ 64)
          (ltb 64 (length (distinct_from [] os)))
observe_all-accumulated base os =
    observe_all-summary [] 0 base os ∙ ap (summary (distinct_from [] os)) (counted_zero os)

-- The ring for a history of points: the last `cap` of them.
abbrev recent : ℕ → List SeriesPoint → Rollup
recent size ps = series_of (drop (length ps - size) ps) size (ltb size (length ps))

pub points : SystemTime → List Observation → List SeriesPoint
points base [] = []
points base (o ∷ os) = new_point base o.ts o.dir o.value ∷ points base os

module _ {ℓ} {A : Type ℓ} where
  drop-append_one :
      (n : ℕ) (xs : List A) (x : A) → n ≤ length xs → drop n (xs ++ x ∷ []) ≡ drop n xs ++ x ∷ []
  drop-append_one zero xs x h = refl
  drop-append_one (suc n) [] x h = absurd (omega arith)
  drop-append_one (suc n) (y ∷ xs) x h = drop-append_one n xs x (omega arith)

  drop-suc : (n : ℕ) (xs : List A) → drop (suc n) xs ≡ pop_front (drop n xs)
  drop-suc zero [] = refl
  drop-suc zero (x ∷ xs) = refl
  drop-suc (suc n) [] = refl
  drop-suc (suc n) (x ∷ xs) = drop-suc n xs

sub_zero : (n m : ℕ) → n ≤ m → n - m ≡ 0
sub_zero n m h = omega arith

sub_suc : (n m : ℕ) → m ≤ n → n + 1 - m ≡ suc (n - m)
sub_suc n m h = omega arith

observe-recent :
    (size : ℕ) (ps : List SeriesPoint) (base : SystemTime) (o : Observation)
    → 1 ≤ size
    → observe (recent size ps) base o.ts o.dir o.value
      ≡ recent size (ps ++ new_point base o.ts o.dir o.value ∷ [])
unfolding observe
observe-recent size ps base o h = elim (dec_lt (length ps) size) [
  | yes p ↦
      rw
        (
          length-append ps (new_point base o.ts o.dir o.value ∷ []),
          sub_zero (length ps) size (omega arith),
          sub_zero (length ps + 1) size (omega arith),
        )
        (ground arith)
  | no p ↦
      rw
        (
          length-append ps (new_point base o.ts o.dir o.value ∷ []),
          length-drop (length ps - size) ps,
          sub_suc (length ps) size (omega arith),
          drop-append_one (suc (length ps - size)) ps (new_point base o.ts o.dir o.value)
              (omega arith),
          drop-suc (length ps - size) ps,
        )
        (ground arith)
]

observe_all-recent :
    (size : ℕ) (ps : List SeriesPoint) (base : SystemTime) (os : List Observation)
    → 1 ≤ size
    → observe_all (recent size ps) base os ≡ recent size (ps ++ points base os)
unfolding observe_all points
observe_all-recent size ps base [] h = simp append-nil
observe_all-recent size ps base (o ∷ os) h = rw (observe-recent size ps base o h) (
    rw (observe_all-recent size (ps ++ new_point base o.ts o.dir o.value ∷ []) base os h)
      (simp append_assoc))

no_points : (size : ℕ) → series_of [] size false ≡ recent size []
no_points size = ground arith

-- A `Series` rollup with a cap of at least one holds the points of the last `size` observations, in
-- their order, and is marked as truncated exactly if there were more.
pub observe_all-series :
    (size : ℕ) (base : SystemTime) (os : List Observation)
    → 1 ≤ size
    → observe_all (series_of [] size false) base os
      ≡ series_of
          (drop (length (points base os) - size) (points base os))
          size
          (ltb size (length (points base os)))
observe_all-series size base os h = rw (no_points size) (observe_all-recent size [] base os h)
