-- ===== src/View/Index/Lanes.antt =====
-- The lanes of a timeline (timeline of crates/pktflow-view/src/index.rs).
use pktflow.Prelude.{
  ℕ, ◌+◌, ◌-◌, ◌≤◌, ◌<◌, ◌≡◌, refl, ◌∙◌, if_cases, List, [], ◌∷◌, Bool, true, false, ◌&&◌, Option,
  none, some, ◌⊎◌, length, max, ltb, leb, if◌then◌else◌, inl, inr, arith, length-append,
}
use pktflow.Prelude.Result.{Result, ok, err, ◌>>=◌}
use pktflow.Core.Packet.{SystemTime}
use pktflow.Flows.Store.{Stream}
use pktflow.View.StreamView.{capture_span}
use pktflow.View.Query.{Failure, Runtime}
use pktflow.View.Index.{Sets, SnapshotIndex, is_kept, order, by_bytes, requested}
use pktflow.View.Index.Timeline.{
  TimelineLane, TimelineSpec, TimelineBins, LaneState, bump_bins, zero_bins, bin_of, add_lane,
  lane_loop, with_rest, clamp, visible_of, timeline_within, timeline,
}
use pktflow.View.Index.Memo.{CacheValid, Answers, wanted, requested-Answers}
use pktflow.View.Index.Bins.{
  slot, column, HaveBins, one_if, column-append, HaveBins-append, length-zero_bins, slot-zero_bins,
  length-bump_bins, slot-bumped,
}

module _ (start : SystemTime) (span bins lanes : ℕ) where
  -- Whether a stream is active in a bin.
  abbrev pub active_in : ℕ → Stream → Bool
  active_in b s =
      leb (bin_of start span bins s.first_seen) b && leb b (bin_of start span bins s.last_seen)

  -- How many of the streams that are kept are active in a bin.
  abbrev pub active_count : ℕ → (Stream → Bool) → List Stream → ℕ
  active_count b kept [] = 0
  active_count b kept (s ∷ ss) =
      if kept s then one_if (active_in b s) + active_count b kept ss else active_count b kept ss

  -- Lanes have their number of bins, there is one left for the rest, which is empty until it is used.
  abbrev LanesValid : LaneState → Type 0
  LanesValid l =
      (length l.out < lanes)
      × HaveBins bins l.out
      × (length l.rest ≡ bins)
      × (l.rest_used ≡ false → (b : ℕ) → slot b l.rest ≡ 0)

  -- The lane of a stream.
  abbrev lane_of : Stream → TimelineLane
  lane_of s = record {
    seq = some s.created_seq;
    active =
        bump_bins (bin_of start span bins s.first_seen) (bin_of start span bins s.last_seen) 0
          (zero_bins bins);
  }

  length-lane_of : (s : Stream) → length (lane_of s).active ≡ bins
  length-lane_of s = length-bump_bins _ _ 0 (zero_bins bins) ∙ length-zero_bins bins

  slot-lane_of :
      (b : ℕ) (s : Stream) → b < bins → slot b (lane_of s).active ≡ one_if (active_in b s)
  slot-lane_of b s h =
      let long : b < length (zero_bins bins) = omega (arith, length-zero_bins bins) in
      omega (
        arith,
        slot-bumped (bin_of start span bins s.first_seen) (bin_of start span bins s.last_seen) b
            (zero_bins bins) long,
        slot-zero_bins b bins,
      )

  add_lane-LanesValid :
      (s : Stream) (l : LaneState) → LanesValid l → LanesValid (add_lane start span bins lanes s l)
  add_lane-LanesValid s l (room, have, rest, unused) =
      if_cases LanesValid (ltb (length l.out + 1) lanes) _ _
        (λ more. (
          ground (arith, length-append {0} l.out (lane_of s ∷ [])),
          HaveBins-append bins l.out (lane_of s ∷ []) have (length-lane_of s, tt),
          rest,
          unused,
        ))
        (λ full. (
          room,
          have,
          length-bump_bins (bin_of start span bins s.first_seen)
                (bin_of start span bins s.last_seen) 0 l.rest
              ∙ rest,
          λ no. ground arith,
        ))

  -- The count of a bin over the lanes and the rest.
  abbrev counted : ℕ → LaneState → ℕ
  counted b l = column b l.out + slot b l.rest

  counted-add_lane :
      (b : ℕ) (s : Stream) (l : LaneState)
      → b < bins
      → LanesValid l
      → counted b (add_lane start span bins lanes s l) ≡ counted b l + one_if (active_in b s)
  counted-add_lane b s l h (room, have, rest, unused) =
      if_cases (λ x. counted b x ≡ counted b l + one_if (active_in b s))
        (ltb (length l.out + 1) lanes) _ _
        (λ more. omega (arith, column-append b l.out (lane_of s ∷ []), slot-lane_of b s h))
        (λ full.
          let long : b < length l.rest = omega arith in
          omega (
            arith,
            slot-bumped (bin_of start span bins s.first_seen) (bin_of start span bins s.last_seen) b
                l.rest long,
          ))

  counted-cons :
      (b : ℕ) (s : Stream) (later : ℕ) (l : LaneState) (on : Bool) {n : ℕ}
      → b < bins
      → LanesValid l
      → n ≡ counted b (if on then add_lane start span bins lanes s l else l) + later
      → n ≡ counted b l + (if on then one_if (active_in b s) + later else later)
  counted-cons b s later l true h v e = omega (arith, e, counted-add_lane b s l h v)
  counted-cons b s later l false h v e = e

  counted-lane_loop :
      (b : ℕ) (kept : Stream → Bool) (ss : List Stream) (l : LaneState)
      → b < bins
      → LanesValid l
      → counted b (lane_loop start span bins lanes kept ss l) ≡ counted b l + active_count b kept ss
  unfolding lane_loop
  counted-lane_loop b kept [] l h v = omega arith
  counted-lane_loop b kept (s ∷ ss) l h v =
      counted-cons b s (active_count b kept ss) l (kept s) h v (
        counted-lane_loop b kept ss _ h
          (if_cases LanesValid (kept s) _ _ (λ on. add_lane-LanesValid s l v) (λ off. v)))

  lane_loop-LanesValid :
      (kept : Stream → Bool) (ss : List Stream) (l : LaneState)
      → LanesValid l
      → LanesValid (lane_loop start span bins lanes kept ss l)
  unfolding lane_loop
  lane_loop-LanesValid kept [] l v = v
  lane_loop-LanesValid kept (s ∷ ss) l v =
      lane_loop-LanesValid kept ss _
        (if_cases LanesValid (kept s) _ _ (λ on. add_lane-LanesValid s l v) (λ off. v))

  -- What is to be shown: lanes and bins within their number, and each stream counted where it is active.
  abbrev pub LanesAnswer : (Stream → Bool) → List Stream → List TimelineLane → Type 0
  LanesAnswer kept ss out =
      (length out ≤ lanes)
      × HaveBins bins out
      × ((b : ℕ) → b < bins → column b out ≡ active_count b kept ss)

  with_rest-LanesAnswer :
      (kept : Stream → Bool) (ss : List Stream) (l : LaneState)
      → LanesValid l
      → ((b : ℕ) → b < bins → counted b l ≡ active_count b kept ss)
      → LanesAnswer kept ss (with_rest l)
  with_rest-LanesAnswer kept ss l (room, have, rest, unused) count =
      if_cases (LanesAnswer kept ss) l.rest_used _ _
        (λ used. (
          ground (arith, length-append {0} l.out (record { seq = none; active = l.rest } ∷ [])),
          HaveBins-append bins l.out (record { seq = none; active = l.rest } ∷ []) have (rest, tt),
          λ b h. omega (
            arith,
            column-append b l.out (record { seq = none; active = l.rest } ∷ []),
            count b h,
          ),
        ))
        (λ no. (omega arith, have, λ b h. omega (arith, unused no b, count b h)))

clamp_lem : (hi n : ℕ) → 1 ≤ hi → 1 ≤ clamp 1 hi n
clamp_lem hi n h = ground arith

-- The lanes of the streams that a request keeps.
lanes_shown :
    (start : SystemTime) (span bins lanes : ℕ) (kept : Stream → Bool) (ss : List Stream)
    → 1 ≤ lanes
    → LanesAnswer start span bins lanes kept ss (
        with_rest (
          lane_loop start span bins lanes kept ss
            (record { out = []; rest = zero_bins bins; rest_used = false })))
lanes_shown start span bins lanes kept ss some_lane =
    let empty : LaneState = record { out = []; rest = zero_bins bins; rest_used = false } in
    let v : LanesValid start span bins lanes empty =
      (omega arith, tt, length-zero_bins bins, λ no b. slot-zero_bins b bins) in
    with_rest-LanesAnswer start span bins lanes kept ss _
      (lane_loop-LanesValid start span bins lanes kept ss empty v)
      (λ b h.
        omega (
          arith,
          counted-lane_loop start span bins lanes b kept ss empty h v,
          slot-zero_bins b bins,
        ))

module _ (rt : Runtime) where
  -- What a timeline is to give: over the span of the capture, at most `lanes` lanes of `bins` bins, both
  -- within their limits, which count in each bin the streams that are active in it.
  abbrev pub TimelineAnswer :
      List Stream → TimelineSpec → Result Failure (Option TimelineBins × SnapshotIndex) → Type 0
  TimelineAnswer streams spec (ok (none, index)) =
      (index.streams ≡ streams)
      × ((capture_span streams ≡ none)
          ⊎ ((start : SystemTime) × (end : SystemTime) × (capture_span streams ≡ some (start, end))
              × (end < start)))
  TimelineAnswer streams spec (ok (some shown, index)) =
      (sets : Sets) × (wanted rt streams spec.query ≡ ok sets)
      × (capture_span streams ≡ some (shown.start, shown.end))
      × LanesAnswer shown.start (max (shown.end - shown.start) 1) (clamp 1 2048 spec.bins)
          (clamp 1 512 spec.lanes) (is_kept (visible_of sets)) (order by_bytes streams) shown.lanes
      × (index.streams ≡ streams)
      × CacheValid rt streams index.query
  TimelineAnswer streams spec (err x) = wanted rt streams spec.query ≡ err x

  -- What is shown, with the sets that the request gives.
  abbrev shown_with :
      SnapshotIndex
      → TimelineSpec
      → SystemTime
      → SystemTime
      → Result Failure (Sets × SnapshotIndex)
      → Result Failure (Option TimelineBins × SnapshotIndex)
  shown_with index spec start end r = do
    (sets, after) ← r
    ok (
      some (record {
        start = start;
        end = end;
        lanes = with_rest (
            lane_loop start (max (end - start) 1) (clamp 1 2048 spec.bins) (clamp 1 512 spec.lanes)
              (is_kept (visible_of sets)) (order by_bytes index.streams)
              (record { out = []; rest = zero_bins (clamp 1 2048 spec.bins); rest_used = false }));
      }),
      after,
    )

  shown_of :
      (index : SnapshotIndex) (spec : TimelineSpec) (start end : SystemTime)
      (r : Result Failure (Sets × SnapshotIndex))
      → capture_span index.streams ≡ some (start, end)
      → Answers rt index.streams (wanted rt index.streams spec.query) r
      → TimelineAnswer index.streams spec (shown_with index spec start end r)
  shown_of index spec start end (ok (sets, after)) span (w, same, v) = (
    sets,
    w,
    span,
    lanes_shown start (max (end - start) 1) (clamp 1 2048 spec.bins) (clamp 1 512 spec.lanes)
        (is_kept (visible_of sets)) (order by_bytes index.streams)
        (clamp_lem 512 spec.lanes (omega arith)),
    same,
    v,
  )
  shown_of index spec start end (err x) span w = w

  lanes_of :
      (index : SnapshotIndex) (spec : TimelineSpec) (start end : SystemTime)
      → capture_span index.streams ≡ some (start, end)
      → Answers rt index.streams
          (wanted rt index.streams spec.query)
          (requested rt index spec.query)
      → TimelineAnswer index.streams spec (timeline_within rt index spec start end)
  unfolding timeline_within
  lanes_of index spec start end span a =
      if_cases (TimelineAnswer index.streams spec) (ltb end start) _ _
        (λ backwards. (refl, inr (start, end, span, ground arith)))
        (λ forwards. shown_of index spec start end (requested rt index spec.query) span a)

  span_cases :
      (index : SnapshotIndex) (spec : TimelineSpec) (span : Option (SystemTime × SystemTime))
      → CacheValid rt index.streams index.query
      → capture_span index.streams ≡ span
      → TimelineAnswer index.streams spec (elim span [
        | none ↦ ok (none, index)
        | some (start, end) ↦ timeline_within rt index spec start end
      ])
  span_cases index spec none v e = (refl, inl e)
  span_cases index spec (some (start, end)) v e =
      lanes_of index spec start end e (requested-Answers rt index spec.query v)

  -- If the memo of the index is valid, a timeline either fails as the evaluation of its query does, or
  -- is empty since the capture has no streams or ends before it starts, or spans the capture. Then it
  -- has at most `lanes` lanes of `bins` bins each, with both numbers brought within their limits, and in
  -- each bin its lanes count together exactly the kept streams that are active there. The index it
  -- leaves has the same streams, and where something is shown its memo is valid.
  pub timeline-TimelineAnswer :
      (index : SnapshotIndex) (spec : TimelineSpec)
      → CacheValid rt index.streams index.query
      → TimelineAnswer index.streams spec (timeline rt index spec)
  unfolding timeline
  timeline-TimelineAnswer index spec v = span_cases index spec (capture_span index.streams) v refl
