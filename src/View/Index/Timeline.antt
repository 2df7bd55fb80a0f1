-- ===== src/View/Index/Timeline.antt =====
-- The timeline of an index (timeline of crates/pktflow-view/src/index.rs). A bin counts streams, which
-- the index numbers with 32 bits, so its count does not overflow.
use pktflow.Prelude.{
  ℕ, zero, suc, ◌+◌, ◌-◌, ◌*◌, ◌/◌, List, [], ◌∷◌, ◌++◌, Bool, true, false, ◌&&◌, Option, none,
  some, length, min, max, ltb, leb, nat_eq, string_eq, bytes_eq, if◌then◌else◌,
}
use pktflow.Prelude.Result.{Result, ok, ◌>>=◌}
use pktflow.Prelude.Text.{Text}
use pktflow.Core.Packet.{SystemTime}
use pktflow.Flows.Store.{stream_id_eq, Stream}
use pktflow.View.StreamView.{capture_span}
use pktflow.View.Query.{Failure, Runtime}
use pktflow.View.Index.{Sets, SnapshotIndex, by_bytes, order, requested, is_kept}

-- The loop of `timeline`: a lane for each of the first streams, and one for the rest.
pub record TimelineLane : Type 0 where
  pub seq : Option ℕ
  pub active : List ℕ

pub record TimelineSpec : Type 0 where
  pub bins : ℕ
  pub lanes : ℕ
  pub query : Option Text

pub record TimelineBins : Type 0 where
  pub start : SystemTime
  pub end : SystemTime
  pub lanes : List TimelineLane

pub record LaneState : Type 0 where
  pub out : List TimelineLane
  pub rest : List ℕ
  pub rest_used : Bool

-- `*slot += 1` on the bins from `from` to `to`, the first of which is bin `i`.
abbrev pub bump_bins : ℕ → ℕ → ℕ → List ℕ → List ℕ
bump_bins from to i [] = []
bump_bins from to i (b ∷ bs) =
    (if leb from i && leb i to then b + 1 else b) ∷ bump_bins from to (i + 1) bs

abbrev pub zero_bins : ℕ → List ℕ
zero_bins zero = []
zero_bins (suc n) = 0 ∷ zero_bins n

-- `bin_of`
abbrev pub bin_of : SystemTime → ℕ → ℕ → SystemTime → ℕ
bin_of start span bins ts = min ((ts - start) * bins / span) (bins - 1)

-- A lane of a stream starts from zero, so its bins are 0 and 1.
abbrev pub add_lane : SystemTime → ℕ → ℕ → ℕ → Stream → LaneState → LaneState
add_lane start span bins lanes s l =
    let from = bin_of start span bins s.first_seen in
    let to = bin_of start span bins s.last_seen in
    if ltb (length l.out + 1) lanes
    then record l {
      out =
          l.out
          ++ record { seq = some s.created_seq; active = bump_bins from to 0 (zero_bins bins) }
            ∷ [];
    }
    else record l { rest = bump_bins from to 0 l.rest; rest_used = true }

unfoldable pub lane_loop :
    SystemTime → ℕ → ℕ → ℕ → (Stream → Bool) → List Stream → LaneState → LaneState
lane_loop start span bins lanes kept [] l = l
lane_loop start span bins lanes kept (s ∷ ss) l =
    lane_loop start span bins lanes kept ss
      (if kept s then add_lane start span bins lanes s l else l)

abbrev pub with_rest : LaneState → List TimelineLane
with_rest l = if l.rest_used then l.out ++ record { seq = none; active = l.rest } ∷ [] else l.out

abbrev pub clamp : ℕ → ℕ → ℕ → ℕ
clamp lo hi n = min (max n lo) hi

abbrev pub visible_of : Sets → Option (List ℕ)
visible_of none = none
visible_of (some (matches, visible)) = some visible

module _ (rt : Runtime) where
  -- `timeline` between the ends of the capture.
  unfoldable pub timeline_within :
      SnapshotIndex
      → TimelineSpec
      → SystemTime
      → SystemTime
      → Result Failure (Option TimelineBins × SnapshotIndex)
  unfolding requested lane_loop order
  timeline_within index spec start end = if ltb end start then ok (none, index) else (do
    (sets, index') ← requested rt index spec.query
    let bins = clamp 1 2048 spec.bins
    let lanes = clamp 1 512 spec.lanes
    ok (
      some (record {
        start = start;
        end = end;
        lanes = with_rest (
            lane_loop start (max (end - start) 1) bins lanes (is_kept (visible_of sets))
              (order by_bytes index.streams)
              (record { out = []; rest = zero_bins bins; rest_used = false }));
      }),
      index',
    ))

  -- `timeline`
  unfoldable pub timeline :
      SnapshotIndex → TimelineSpec → Result Failure (Option TimelineBins × SnapshotIndex)
  unfolding timeline_within capture_span
  timeline index spec = elim (capture_span index.streams) [
    | none ↦ ok (none, index)
    | some (start, end) ↦ timeline_within index spec start end
  ]
