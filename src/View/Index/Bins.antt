-- ===== src/View/Index/Bins.antt =====
-- The bins of a timeline lane (timeline of crates/pktflow-view/src/index.rs).
use pktflow.Prelude.{
  ℕ, zero, suc, ◌+◌, ◌<◌, ◌≡◌, refl, subst, List, [], ◌∷◌, ◌++◌, Bool, true, false, ◌&&◌, length,
  leb, if◌then◌else◌, arith,
}
use pktflow.View.Index.Timeline.{TimelineLane, bump_bins, zero_bins}

-- The count of a bin, 0 past the end.
abbrev pub slot : ℕ → List ℕ → ℕ
slot b [] = 0
slot zero (n ∷ ns) = n
slot (suc b) (n ∷ ns) = slot b ns

-- The count of a bin over all lanes.
abbrev pub column : ℕ → List TimelineLane → ℕ
column b [] = 0
column b (l ∷ ls) = slot b l.active + column b ls

abbrev pub HaveBins : ℕ → List TimelineLane → Type 0
HaveBins bins [] = Unit
HaveBins bins (l ∷ ls) = (length l.active ≡ bins) × HaveBins bins ls

abbrev pub one_if : Bool → ℕ
one_if true = 1
one_if false = 0

pub column-append :
    (b : ℕ) (ls ms : List TimelineLane) → column b (ls ++ ms) ≡ column b ls + column b ms
column-append b [] ms = omega arith
column-append b (l ∷ ls) ms = omega (arith, column-append b ls ms)

pub HaveBins-append :
    (bins : ℕ) (ls ms : List TimelineLane)
    → HaveBins bins ls
    → HaveBins bins ms
    → HaveBins bins (ls ++ ms)
HaveBins-append bins [] ms h k = k
HaveBins-append bins (l ∷ ls) ms (n, h) k = (n, HaveBins-append bins ls ms h k)

pub length-zero_bins : (n : ℕ) → length (zero_bins n) ≡ n
length-zero_bins zero = refl
length-zero_bins (suc n) = omega (arith, length-zero_bins n)

pub slot-zero_bins : (b n : ℕ) → slot b (zero_bins n) ≡ 0
slot-zero_bins b zero = refl
slot-zero_bins zero (suc n) = refl
slot-zero_bins (suc b) (suc n) = slot-zero_bins b n

pub length-bump_bins : (from to i : ℕ) (ns : List ℕ) → length (bump_bins from to i ns) ≡ length ns
length-bump_bins from to i [] = refl
length-bump_bins from to i (n ∷ ns) = omega (arith, length-bump_bins from to (i + 1) ns)

pub bumped : (on : Bool) (n : ℕ) → (if on then n + 1 else n) ≡ n + one_if on
bumped true n = refl
bumped false n = omega arith

pub slot-bump_bins :
    (from to i b : ℕ) (ns : List ℕ)
    → b < length ns
    → slot b (bump_bins from to i ns) ≡ slot b ns + one_if (leb from (i + b) && leb (i + b) to)
slot-bump_bins from to i b [] h = omega arith
slot-bump_bins from to i zero (n ∷ ns) h =
    let here : i + 0 ≡ i = omega arith in rw here (bumped (leb from i && leb i to) n)
slot-bump_bins from to i (suc b) (n ∷ ns) h =
    let next : i + suc b ≡ i + 1 + b = omega arith in
    rw next (slot-bump_bins from to (i + 1) b ns (omega arith))

pub slot-bumped :
    (from to b : ℕ) (ns : List ℕ)
    → b < length ns
    → slot b (bump_bins from to 0 ns) ≡ slot b ns + one_if (leb from b && leb b to)
slot-bumped from to b ns h =
    let from_start : 0 + b ≡ b = omega arith in
    subst (λ i. slot b (bump_bins from to 0 ns) ≡ slot b ns + one_if (leb from i && leb i to))
      from_start (slot-bump_bins from to 0 b ns h)
