-- ===== src/Core/Diagnostics.antt =====
-- What the bytes looked like where no plugin took them (crates/pktflow-core/src/diagnostics.rs).
use pktflow.Prelude.{
  ℕ, List, [], ◌∷◌, Option, none, some, map, min, length, take, leb, if◌then◌else◌,
}
use pktflow.Core.Error.{
  StopReason, complete, terminal, unclaimed_route, unknown_hint, plugin_error, depth_cap,
}
use pktflow.Core.Packet.{
  ProtocolName, LayerRecord, UnknownContext, UnknownDiagnostics, no_heuristic_winner,
}
use pktflow.Core.Plugin.{Plugin, ParseCtx, prev, confidence}
use pktflow.Core.Engine.{Engine}
use pktflow.Core.Router.{score_fallback_pool}

abbrev pub sample_cap : ℕ
sample_cap = 256

-- `sort_by_key(Reverse(score))`, which is stable: a candidate stays behind those of its own score.
unfoldable pub insert_scored : ℕ × Plugin → List (ℕ × Plugin) → List (ℕ × Plugin)
insert_scored c [] = c ∷ []
insert_scored (s, p) ((t, q) ∷ cs) =
    if leb t s then (s, p) ∷ (t, q) ∷ cs else (t, q) ∷ insert_scored (s, p) cs

unfoldable pub sort_scored : List (ℕ × Plugin) → List (ℕ × Plugin)
sort_scored [] = []
sort_scored (c ∷ cs) = insert_scored c (sort_scored cs)

unfoldable pub near_miss : ℕ × Plugin → ProtocolName × ℕ
unfolding confidence
near_miss (score, p) = (p.name, confidence score)

-- The context of a stop on unknown payload, behind a layer.
unfoldable pub unknown_context : StopReason → LayerRecord → Option UnknownContext
unknown_context (unclaimed_route id) l = some (UnknownContext.unclaimed_route l.protocol id)
unknown_context unknown_hint l = some (no_heuristic_winner l.protocol)
unknown_context complete l = none
unknown_context terminal l = none
unknown_context (StopReason.truncated needed have) l = none
unknown_context plugin_error l = none
unknown_context depth_cap l = none

-- `Engine::diagnose_unknown`: without a layer before the stop there is nothing to report.
unfoldable pub diagnose_unknown :
    Engine → StopReason → List ℕ → ParseCtx → Option UnknownDiagnostics
unfolding unknown_context prev
diagnose_unknown e stop bytes ctx = elim (prev ctx) [
  | none ↦ none
  | some l ↦ elim (unknown_context stop l) [
    | none ↦ none
    | some context ↦ some (record {
      context = context;
      near_misses = map near_miss (take 5 (sort_scored (score_fallback_pool e bytes ctx)));
      sample = take (min (length bytes) sample_cap) bytes;
    })
  ]
]
