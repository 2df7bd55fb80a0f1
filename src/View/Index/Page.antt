-- ===== src/View/Index/Page.antt =====
-- The page of a window (window of crates/pktflow-view/src/index.rs).
use pktflow.Prelude.{
  ℕ, zero, suc, ◌+◌, ◌-◌, ◌≤◌, ◌<◌, ◌≡◌, refl, ◌∙◌, List, [], ◌∷◌, ◌++◌, Bool, true, false, ◌&&◌,
  ◌⊎◌, length, take, drop, min, ltb, if◌then◌else◌, inl, inr, arith, length-append,
}
use mathlib.Core.List.{append_assoc, append-nil}
use pktflow.Prelude.Result.{Result, ok, err}
use pktflow.Flows.Store.{Stream}
use pktflow.View.Query.{Failure, Runtime}
use pktflow.View.Index.{
  Sets, SnapshotIndex, WindowSpec, WindowResult, PageState, add_row, page_loop, window, requested,
  in_scope, is_kept, keep_for, directed, order, match_total_of,
}
use pktflow.View.Index.Memo.{CacheValid, Answers, wanted, requested-Answers}

abbrev pub filter_rows : (Stream → Bool) → List Stream → List Stream
filter_rows p [] = []
filter_rows p (s ∷ ss) = if p s then s ∷ filter_rows p ss else filter_rows p ss

module _ (offset limit : ℕ) (scoped kept : Stream → Bool) where
  -- The page is as long as the rows so far allow.
  abbrev Filled : PageState → Type 0
  Filled p = length p.rows ≡ min limit (p.matched - offset)

  -- What the loop adds to a page for rows in scope, of which some are hits.
  abbrev Extends : List Stream → List Stream → PageState → PageState → Type 0
  Extends rows hits p q =
      (q.total ≡ p.total + length rows)
      × (q.matched ≡ p.matched + length hits)
      × (q.rows ≡ p.rows ++ take (limit - length p.rows) (drop (offset - p.matched) hits))

  abbrev hit : Stream → Bool
  hit s = scoped s && kept s

  add_row-Filled : (s : Stream) (p : PageState) → Filled p → Filled (add_row offset limit s p)
  add_row-Filled s p f = ground (arith, length-append {0} p.rows (s ∷ []))

  -- A row that is a hit, in front of `later`.
  row_lem :
      (rows : List Stream) (m : ℕ) (s : Stream) (later : List Stream) (on : Bool)
      → (on ≡ true → (offset ≤ m) × (length rows < limit))
      → (on ≡ false → (m < offset) ⊎ (limit ≤ length rows))
      → (if on then rows ++ s ∷ [] else rows)
          ++ take
              (limit - length (if on then rows ++ s ∷ [] else rows))
              (drop (offset - (m + 1)) later)
        ≡ rows ++ take (limit - length rows) (drop (offset - m) (s ∷ later))
  row_lem rows m s later true h k =
      let (past, room) = h refl in
      let here : offset - m ≡ 0 = omega arith in
      let next : offset - (m + 1) ≡ 0 = omega arith in
      let left : limit - length rows ≡ suc (limit - length (rows ++ s ∷ [])) =
        omega (arith, length-append {0} rows (s ∷ [])) in
      rw (here, next, left) (append_assoc rows (s ∷ []) _)
  row_lem rows m s later false h k = elim (k refl) [
    | inl before ↦ let here : offset - m ≡ suc (offset - (m + 1)) = omega arith in rw here refl
    | inr full ↦ let none_left : limit - length rows ≡ 0 = omega arith in rw none_left refl
  ]

  add_row-rows :
      (s : Stream) (p : PageState) (later : List Stream)
      → Filled p
      → (add_row offset limit s p).rows
          ++ take
              (limit - length (add_row offset limit s p).rows)
              (drop (offset - (p.matched + 1)) later)
        ≡ p.rows ++ take (limit - length p.rows) (drop (offset - p.matched) (s ∷ later))
  add_row-rows s p later f =
      row_lem p.rows p.matched s later (ltb offset (p.matched + 1) && ltb (length p.rows) limit)
        (ground arith) (ground arith)

  -- One row, which is in scope if `a` and kept if `b`.
  abbrev step : Bool → Bool → Stream → PageState → PageState
  step a b s p =
      if a then (if b then add_row offset limit s p else record p { total = p.total + 1 }) else p

  step-Filled : (a b : Bool) (s : Stream) (p : PageState) → Filled p → Filled (step a b s p)
  step-Filled true true s p f = add_row-Filled s p f
  step-Filled true false s p f = f
  step-Filled false b s p f = f

  Extends-step :
      (a b : Bool) (s : Stream) (rows hits : List Stream) (p q : PageState)
      → Filled p
      → Extends rows hits (step a b s p) q
      → Extends (if a then s ∷ rows else rows) (if a && b then s ∷ hits else hits) p q
  Extends-step true true s rows hits p q f (t, m, r) =
      (omega (arith, t), omega (arith, m), r ∙ add_row-rows s p hits f)
  Extends-step true false s rows hits p q f (t, m, r) = (omega (arith, t), m, r)
  Extends-step false b s rows hits p q f e = e

  drop-nil : (n : ℕ) → drop {A = Stream} n [] ≡ []
  drop-nil zero = refl
  drop-nil (suc n) = refl

  take-nil : (n : ℕ) → take {A = Stream} n [] ≡ []
  take-nil zero = refl
  take-nil (suc n) = refl

  page_loop-Extends :
      (ss : List Stream) (p : PageState)
      → Filled p
      → Extends
          (filter_rows scoped ss)
          (filter_rows hit ss)
          p
          (page_loop scoped kept offset limit ss p)
  unfolding page_loop
  page_loop-Extends [] p f = (
    omega arith,
    omega arith,
    rw (drop-nil (offset - p.matched), take-nil (limit - length p.rows), append-nil),
  )
  page_loop-Extends (s ∷ ss) p f =
      Extends-step (scoped s) (kept s) s (filter_rows scoped ss) (filter_rows hit ss) p _ f (
        page_loop-Extends ss (step (scoped s) (kept s) s p) (step-Filled (scoped s) (kept s) s p f))

abbrev no_page : PageState
no_page = record { total = 0; matched = 0; rows = [] }

-- The specification of a window: the rows of the sorted list in scope, those that the query keeps
-- among them, and a page of these.
abbrev pub page_of : List Stream → WindowSpec → Sets → WindowResult
page_of streams spec sets =
    let rows = directed spec.descending (order spec.sort streams) in
    let scoped = in_scope streams spec.scope in
    let hits = filter_rows (λ s. scoped s && is_kept (keep_for spec.scope sets) s) rows in
    record {
      total = length (filter_rows scoped rows);
      match_total = match_total_of sets (length hits);
      rows = take spec.limit (drop spec.offset hits);
    }

from_start :
    (spec : WindowSpec) (sets : Sets) (rows hits : List Stream)
    → ◌≡◌ {A = WindowResult}
        (record {
          total = 0 + length rows;
          match_total = match_total_of sets (0 + length hits);
          rows = take (spec.limit - 0) (drop (spec.offset - 0) hits);
        })
        (record {
          total = length rows;
          match_total = match_total_of sets (length hits);
          rows = take spec.limit (drop spec.offset hits);
        })
from_start spec sets rows hits =
    let all_rows : 0 + length rows ≡ length rows = omega arith in
    let all_hits : 0 + length hits ≡ length hits = omega arith in
    let room : spec.limit - 0 ≡ spec.limit = omega arith in
    let skipped : spec.offset - 0 ≡ spec.offset = omega arith in
    rw (all_rows, all_hits, room, skipped) refl

-- A loop from no page, which counts the rows in scope and the hits, and pages these.
paged :
    (streams : List Stream) (spec : WindowSpec) (sets : Sets) (p : PageState)
    → Extends spec.offset spec.limit
        (in_scope streams spec.scope)
        (is_kept (keep_for spec.scope sets))
        (filter_rows
          (in_scope streams spec.scope)
          (directed spec.descending (order spec.sort streams)))
        (filter_rows
          (hit spec.offset spec.limit
            (in_scope streams spec.scope)
            (is_kept (keep_for spec.scope sets)))
          (directed spec.descending (order spec.sort streams)))
        no_page
        p
    → ◌≡◌ {A = WindowResult}
        (record { total = p.total; match_total = match_total_of sets p.matched; rows = p.rows })
        (page_of streams spec sets)
paged streams spec sets p (t, m, r) =
    rw (t, m, r)
      (from_start spec sets
        (filter_rows (in_scope streams spec.scope)
          (directed spec.descending (order spec.sort streams)))
        (filter_rows
          (hit spec.offset spec.limit (in_scope streams spec.scope)
            (is_kept (keep_for spec.scope sets)))
          (directed spec.descending (order spec.sort streams))))

window-page :
    (streams : List Stream) (spec : WindowSpec) (sets : Sets) (p : PageState)
    → p
      ≡ page_loop
          (in_scope streams spec.scope)
          (is_kept (keep_for spec.scope sets))
          spec.offset
          spec.limit
          (directed spec.descending (order spec.sort streams))
          no_page
    → ◌≡◌ {A = WindowResult}
        (record { total = p.total; match_total = match_total_of sets p.matched; rows = p.rows })
        (page_of streams spec sets)
window-page streams spec sets p same = paged streams spec sets p (
    rw same (
      page_loop-Extends spec.offset spec.limit (in_scope streams spec.scope)
        (is_kept (keep_for spec.scope sets)) (directed spec.descending (order spec.sort streams))
        no_page (omega arith)))

module _ (rt : Runtime) where
  -- What a window is to give: the page of the sets that its query asks for.
  abbrev pub PageAnswer :
      List Stream → WindowSpec → Result Failure (WindowResult × SnapshotIndex) → Type 0
  PageAnswer streams spec (ok (result, index)) =
      (sets : Sets) × (wanted rt streams spec.query ≡ ok sets)
      × (result ≡ page_of streams spec sets)
      × (index.streams ≡ streams)
      × CacheValid rt streams index.query
  PageAnswer streams spec (err x) = wanted rt streams spec.query ≡ err x

  answer_of :
      (index : SnapshotIndex) (spec : WindowSpec) (r : Result Failure (Sets × SnapshotIndex))
      → requested rt index spec.query ≡ r
      → Answers rt index.streams (wanted rt index.streams spec.query) r
      → PageAnswer index.streams spec (window rt index spec)
  unfolding window
  answer_of index spec (ok (sets, after)) e (w, same, v) =
      rw (e, PageAnswer) (sets, w, window-page index.streams spec sets _ refl, same, v)
  answer_of index spec (err x) e w = rw (e, PageAnswer) w

  -- If the memo of the index is valid, a window either fails as the evaluation of its query does, or it
  -- gives the page of the specification, with the sets that the query evaluates to on the snapshot. The
  -- page counts the rows in scope and those that the query keeps, and holds the `limit` kept rows behind
  -- the first `offset` of the order that is asked for. The index it leaves has the same streams and a
  -- valid memo.
  pub window-PageAnswer :
      (index : SnapshotIndex) (spec : WindowSpec)
      → CacheValid rt index.streams index.query
      → PageAnswer index.streams spec (window rt index spec)
  window-PageAnswer index spec v =
      answer_of index spec (requested rt index spec.query) refl
        (requested-Answers rt index spec.query v)
