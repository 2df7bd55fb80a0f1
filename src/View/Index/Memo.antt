-- ===== src/View/Index/Memo.antt =====
-- The memo of the last query changes no answer (query_sets of crates/pktflow-view/src/index.rs).
use pktflow.Prelude.{
  ◌≡◌, refl, sym, subst, if_cases, List, Bool, true, false, Option, none, some, ◌≟◌, ≟_eq, bytes_eq,
  if◌then◌else◌, inl, inr,
}
use pktflow.Prelude.Result.{Result, ok, err, Result-cases}
use pktflow.Prelude.Text.{Text}
use pktflow.Flows.Store.{Stream}
use pktflow.View.Query.{Failure, Runtime}
use pktflow.View.Index.{
  Sets, QueryCache, SnapshotIndex, evaluate, fresh_sets, query_sets, requested,
}

module _ (rt : Runtime) where
  -- The memo holds the sets of its query.
  abbrev pub CacheValid : List Stream → Option QueryCache → Type 0
  CacheValid streams none = Unit
  CacheValid streams (some cache) = evaluate rt streams cache.raw ≡ ok cache.sets

  -- A request gives what `sets` says, and leaves a valid index of the same streams.
  abbrev pub Answers :
      List Stream → Result Failure Sets → Result Failure (Sets × SnapshotIndex) → Type 0
  Answers streams sets (ok (out, index)) =
      (sets ≡ ok out) × (index.streams ≡ streams) × CacheValid streams index.query
  Answers streams sets (err x) = sets ≡ err x

  fresh_sets-Answers :
      (index : SnapshotIndex) (raw : Text)
      → Answers index.streams (evaluate rt index.streams raw) (fresh_sets rt index raw)
  unfolding fresh_sets
  fresh_sets-Answers index raw = elim (Result-cases (evaluate rt index.streams raw)) [
    | inl (sets, e) ↦ rw (e, Answers) (e, refl, e)
    | inr (x, e) ↦ rw (e, Answers) e
  ]

  -- The memo of the query that is asked for.
  cached-Answers :
      (index : SnapshotIndex) (raw : Text) (q : Option QueryCache)
      → index.query ≡ q
      → CacheValid index.streams q
      → Answers index.streams (evaluate rt index.streams raw) (query_sets rt index raw)
  unfolding query_sets
  cached-Answers index raw none e v = rw (e, query_sets, Answers) (fresh_sets-Answers index raw)
  cached-Answers index raw (some cache) e v =
      rw (e, query_sets, Answers)
        (if_cases (Answers index.streams (evaluate rt index.streams raw)) (cache.raw ≟ raw) _ _
          (λ same. (
            subst (λ x. evaluate rt index.streams x ≡ ok cache.sets) (≟_eq cache.raw raw same) v,
            refl,
            subst (CacheValid index.streams) (sym e) v,
          ))
          (λ other. fresh_sets-Answers index raw))

  -- If the memo of the index holds what its query evaluates to on the snapshot, `query_sets` gives what
  -- any query evaluates to there, also where its parser panics, and the memo it leaves is valid again.
  pub query_sets-Answers :
      (index : SnapshotIndex) (raw : Text)
      → CacheValid index.streams index.query
      → Answers index.streams (evaluate rt index.streams raw) (query_sets rt index raw)
  query_sets-Answers index raw v = cached-Answers index raw index.query refl v

  -- The sets of a request, without the memo.
  abbrev pub wanted : List Stream → Option Text → Result Failure Sets
  wanted streams none = ok none
  wanted streams (some q) = if rt.is_blank q then ok none else evaluate rt streams q

  wanted_if :
      (index : SnapshotIndex) (q : Text) (b : Bool)
      → CacheValid index.streams index.query
      → Answers index.streams
          (if b then ok none else evaluate rt index.streams q)
          (if b then ok (none, index) else query_sets rt index q)
  wanted_if index q true v = (refl, refl, v)
  wanted_if index q false v = query_sets-Answers index q v

  pub requested-Answers :
      (index : SnapshotIndex) (query : Option Text)
      → CacheValid index.streams index.query
      → Answers index.streams (wanted index.streams query) (requested rt index query)
  unfolding requested
  requested-Answers index none v = (refl, refl, v)
  requested-Answers index (some q) v = wanted_if index q (rt.is_blank q) v
