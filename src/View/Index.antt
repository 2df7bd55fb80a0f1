-- ===== src/View/Index.antt =====
-- The index of a snapshot (crates/pktflow-view/src/index.rs). A `OnceLock` holds what its function
-- computes from the snapshot, so the function stands for it; a position stands for the stream there.
-- The memo of the last query is state.
pub mod Memo
pub mod Page
pub mod Order
pub mod Timeline
pub mod Bins
pub mod Lanes
use pktflow.Prelude.{
  ℕ, zero, suc, ◌+◌, ◌-◌, ◌*◌, ◌/◌, ◌^◌, List, [], ◌∷◌, ◌++◌, Bool, true, false, ◌&&◌, ◌||◌, not,
  Option, none, some, length, map, min, max, ltb, leb, ◌==◌, ◌≟◌, contains, nat_eq, string_eq,
  bytes_eq, if◌then◌else◌, String, Eq,
}
use mathlib.Core.List.{filter, reverse}
use pktflow.Prelude.Map.{Map}
use pktflow.Prelude.Result.{Result, ok, err, ◌>>=◌}
use pktflow.Prelude.Text.{Text}
use pktflow.Core.Packet.{SystemTime}
use pktflow.Flows.Store.{StreamId, stream_id_eq, Stream}
use pktflow.View.StreamView.{by_id, total_packets, total_bytes, capture_span}
use pktflow.View.Query.{Failure, query_error, panic, out_of_fuel, Runtime, Expr}
use pktflow.View.Query.Parse.{parse}
use pktflow.View.Query.Eval.{eval}
use pktflow.View.Query.Visible.{matching_with_ancestors}

pub data SortKey : Type 0 where
  by_bytes by_packets by_first_seen by_duration : SortKey

-- `SortKey::parse`
unfoldable pub parse_sort_key : String → Option SortKey
parse_sort_key name =
    if name ≟ "bytes"
    then some by_bytes
    else if name ≟ "packets"
    then some by_packets
    else if (name ≟ "first") || (name ≟ "first-seen") || (name ≟ "first_seen")
    then some by_first_seen
    else if name ≟ "duration"
    then some by_duration
    else none

pub data Scope : Type 0 where
  roots flat : Scope
  children_of : ℕ → Scope

pub record WindowSpec : Type 0 where
  pub scope : Scope
  pub query : Option Text
  pub sort : SortKey
  pub descending : Bool
  pub offset : ℕ
  pub limit : ℕ

pub record WindowResult : Type 0 where
  pub total : ℕ
  pub match_total : Option ℕ
  pub rows : List Stream

-- What a query matches, and that with its ancestors; nothing for an expression that does not parse.
abbrev pub Sets : Type 0
Sets = Option (List ℕ × List ℕ)

pub record QueryCache : Type 0 where
  pub raw : Text
  pub sets : Sets

pub record SnapshotIndex : Type 0 where
  pub streams : List Stream
  pub query : Option QueryCache

-- `SnapshotIndex::new`
abbrev pub new : List Stream → SnapshotIndex
new streams = record { streams = streams; query = none }

-- `by_seq`: a later stream of a number replaces an earlier one in the map of positions.
unfoldable pub by_seq : ℕ → List Stream → Option Stream
by_seq seq [] = none
by_seq seq (s ∷ ss) = elim (by_seq seq ss) [
  | some t ↦ some t
  | none ↦ if s.created_seq == seq then some s else none
]

-- `u128::MAX`
abbrev pub u128_max : ℕ
u128_max = 2 ^ 128 - 1

-- The number that a row is sorted by, the largest first.
abbrev pub sort_value : SortKey → Stream → ℕ
sort_value by_bytes s = total_bytes s
sort_value by_packets s = total_packets s
sort_value by_first_seen s = u128_max - s.first_seen
sort_value by_duration s = s.last_seen - s.first_seen

abbrev pub sorts_before : SortKey → Stream → Stream → Bool
sorts_before key s t =
    ltb (sort_value key t) (sort_value key s)
    || ((sort_value key s == sort_value key t) && leb s.created_seq t.created_seq)

unfoldable pub insert_row : SortKey → Stream → List Stream → List Stream
insert_row key s [] = s ∷ []
insert_row key s (t ∷ ts) = if sorts_before key s t then s ∷ t ∷ ts else t ∷ insert_row key s ts

-- `order`, with `sort_by_key`, which is stable.
unfoldable pub order : SortKey → List Stream → List Stream
unfolding insert_row
order key [] = []
order key (s ∷ ss) = insert_row key s (order key ss)

module _ (rt : Runtime) where
  abbrev pub matching : Expr rt → List Stream → List Stream → List ℕ
  matching query all [] = []
  matching query all (s ∷ ss) =
      if eval rt query s (by_id all)
      then s.created_seq ∷ matching query all ss
      else matching query all ss

  -- The sets of a query, without the memo.
  unfoldable pub evaluate : List Stream → Text → Result Failure Sets
  unfolding parse by_id matching_with_ancestors
  evaluate streams raw = elim (parse rt raw) [
    | ok query ↦ ok (
        some (
          matching query streams streams,
          matching_with_ancestors rt streams (by_id streams) query,
        ))
    | err (query_error x) ↦ ok none
    | err panic ↦ err panic
    | err out_of_fuel ↦ err out_of_fuel
  ]

  unfoldable pub fresh_sets : SnapshotIndex → Text → Result Failure (Sets × SnapshotIndex)
  unfolding evaluate
  fresh_sets index raw = do
    sets ← evaluate index.streams raw
    ok (sets, record index { query = some (record { raw = raw; sets = sets }) })

  -- `query_sets`
  unfoldable pub query_sets : SnapshotIndex → Text → Result Failure (Sets × SnapshotIndex)
  unfolding fresh_sets
  query_sets index raw = elim index.query [
    | none ↦ fresh_sets index raw
    | some cache ↦ if cache.raw ≟ raw then ok (cache.sets, index) else fresh_sets index raw
  ]

  -- The sets that a request asks for.
  unfoldable pub requested : SnapshotIndex → Option Text → Result Failure (Sets × SnapshotIndex)
  unfolding query_sets
  requested index none = ok (none, index)
  requested index (some q) = if rt.is_blank q then ok (none, index) else query_sets index q

-- Tree scopes keep the ancestors of matches, the flat table does not.
abbrev pub keep_for : Scope → Sets → Option (List ℕ)
keep_for scope none = none
keep_for flat (some (matches, visible)) = some matches
keep_for scope (some (matches, visible)) = some visible

abbrev pub is_child_of : Option Stream → Stream → Bool
is_child_of none s = false
is_child_of (some p) s = elim s.parent [ none ↦ false | some id ↦ id ≟ p.id ]

unfoldable pub in_scope : List Stream → Scope → Stream → Bool
unfolding by_seq
in_scope streams roots s = elim s.parent [ none ↦ true | some p ↦ false ]
in_scope streams (children_of seq) s = is_child_of (by_seq seq streams) s
in_scope streams flat s = true

abbrev pub is_kept : Option (List ℕ) → Stream → Bool
is_kept none s = true
is_kept (some keep) s = contains keep s.created_seq

-- The loop of `window`: rows in scope, rows that are kept, and the page.
pub record PageState : Type 0 where
  pub total : ℕ
  pub matched : ℕ
  pub rows : List Stream

abbrev pub add_row : ℕ → ℕ → Stream → PageState → PageState
add_row offset limit s p = record {
  total = p.total + 1;
  matched = p.matched + 1;
  rows =
      if ltb offset (p.matched + 1) && ltb (length p.rows) limit then p.rows ++ s ∷ [] else p.rows;
}

unfoldable pub page_loop :
    (Stream → Bool) → (Stream → Bool) → ℕ → ℕ → List Stream → PageState → PageState
page_loop scoped kept offset limit [] p = p
page_loop scoped kept offset limit (s ∷ ss) p = page_loop scoped kept offset limit ss (
    if scoped s
    then (if kept s then add_row offset limit s p else record p { total = p.total + 1 })
    else p)

abbrev pub directed : Bool → List Stream → List Stream
directed true rows = rows
directed false rows = reverse rows

abbrev pub match_total_of : Sets → ℕ → Option ℕ
match_total_of none matched = none
match_total_of (some sets) matched = some matched

module _ (rt : Runtime) where
  -- `window`
  unfoldable pub window : SnapshotIndex → WindowSpec → Result Failure (WindowResult × SnapshotIndex)
  unfolding requested in_scope page_loop order
  window index spec = do
    (sets, index') ← requested rt index spec.query
    let page =
        page_loop (in_scope index.streams spec.scope) (is_kept (keep_for spec.scope sets))
          spec.offset spec.limit (directed spec.descending (order spec.sort index.streams))
          (record { total = 0; matched = 0; rows = [] })
    ok (
      record {
        total = page.total;
        match_total = match_total_of sets page.matched;
        rows = page.rows;
      },
      index',
    )
