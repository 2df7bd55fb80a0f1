-- ===== src/View/Query/Visible.antt =====
-- The visible set of a query (matching_with_ancestors of crates/pktflow-view/src/query.rs). A hash
-- set is a list of its elements.
pub mod Closure
pub mod Exact
use pktflow.Prelude.{
  ℕ, zero, suc, ◌+◌, ◌≤◌, ◌<◌, ◌≡◌, ◌↔◌, ◌⊎◌, inl, inr, refl, sym, ap, subst, ◌∙◌, List, [], ◌∷◌,
  Bool, true, false, ◌||◌, Option, none, some, length, contains, nat_eq, ◌≟◌, ≟_eq, ≟_refl,
  if◌then◌else◌, Bool-cases, Option-cases, arith, ℕ_discrete,
}
use pktflow.Prelude.Map
use pktflow.Prelude.Map.{Map}
use pktflow.Flows.Store.{StreamId, stream_id_eq, Stream}
use pktflow.View.Query.{Runtime, Expr}
use pktflow.View.Query.Eval.{eval}

-- The `while` loop: up from `cursor` until an ancestor that is kept already.
unfoldable pub keep_ancestors : ℕ → Map StreamId Stream → Option StreamId → List ℕ → List ℕ
keep_ancestors fuel ids none keep = keep
keep_ancestors zero ids (some pid) keep = keep
keep_ancestors (suc fuel) ids (some pid) keep = elim (Map.get pid ids) [
  | none ↦ keep
  | some parent ↦
      let rest = keep_ancestors fuel ids parent.parent (parent.created_seq ∷ keep) in
      if contains keep parent.created_seq then keep else rest
]

-- The loop over the streams. Every round of the inner loop keeps another stream of the map.
unfoldable pub keep_matches : (Stream → Bool) → List Stream → Map StreamId Stream → List ℕ → List ℕ
unfolding keep_ancestors
keep_matches matches [] ids keep = keep
keep_matches matches (s ∷ ss) ids keep =
    keep_matches matches ss ids
      (if matches s then keep_ancestors (length ids) ids s.parent (s.created_seq ∷ keep) else keep)

-- `matching_with_ancestors`
unfoldable pub matching_with_ancestors :
    (rt : Runtime) → List Stream → Map StreamId Stream → Expr rt → List ℕ
unfolding keep_matches eval
matching_with_ancestors rt streams ids query =
    keep_matches (λ s. eval rt query s ids) streams ids []
