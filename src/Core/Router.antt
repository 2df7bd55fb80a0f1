-- ===== src/Core/Router.antt =====
-- Hint resolution: the decision table and the heuristic fallback
-- (crates/pktflow-core/src/router.rs).
pub mod Pool
pub mod Gate
pub mod Fallback
use pktflow.Prelude.{
  ℕ, zero, suc, ◌+◌, min, List, [], ◌∷◌, Bool, true, false, Option, none, some, length, get_elem?,
  leb, ltb, ◌≟◌, string_eq, contains, if◌then◌else◌,
}
use pktflow.Prelude.Result.{Result, ok, err}
use pktflow.Core.Bytes.{Truncated}
use pktflow.Core.Route.{RouteId, custom}
use pktflow.Core.Error.{
  ParseError, malformed, StopReason, complete, terminal, unclaimed_route, unknown_hint,
  plugin_error,
}
use pktflow.Core.Packet.{ProtocolName, LayerRecord}
use pktflow.Core.Plugin.{
  Plugin, ParseCtx, prev, ParsedLayer, header_len_ok, Hint, route, candidates, by_protocol, unknown,
}
use pktflow.Core.Engine.{Engine, plugin_for_route, plugin_by_name, fallback_pool}

abbrev pub prior_boost : ℕ
prior_boost = 15

abbrev pub min_confidence : ℕ
min_confidence = 50

pub data StepOutcome : Type 0 where
  layer : (protocol : ProtocolName) (parsed : ParsedLayer) (via_heuristic : Bool) → StepOutcome
  stop : StopReason → StepOutcome

-- `route_failure`: counts that do not fit in 16 bits are saturated.
unfoldable pub route_failure : ParseError → StopReason
route_failure (ParseError.truncated t) =
    StopReason.truncated (min t.needed 65535) (min t.have 65535)
route_failure (malformed reason) = plugin_error

-- A parse that succeeds within the input. (`Ok(parsed) if parsed.header_len_ok(len)`)
unfoldable pub try_parse : Plugin → List ℕ → ParseCtx → Option ParsedLayer
unfolding header_len_ok
try_parse p bytes ctx = elim (p.parse bytes ctx) [
  | err e ↦ none
  | ok parsed ↦ if header_len_ok parsed (length bytes) then some parsed else none
]

-- `dispatch_explicit`
unfoldable pub dispatch_explicit : Plugin → List ℕ → ParseCtx → StepOutcome
unfolding header_len_ok
dispatch_explicit p bytes ctx = elim (p.parse bytes ctx) [
  | err e ↦ stop (route_failure e)
  | ok parsed ↦
      if header_len_ok parsed (length bytes) then layer p.name parsed false else stop plugin_error
]

-- The claimed candidates, in rank order.
unfoldable pub claimed : Engine → List RouteId → List Plugin
claimed e [] = []
claimed e (id ∷ ids) = elim (plugin_for_route e id) [
  | none ↦ claimed e ids
  | some p ↦ p ∷ claimed e ids
]

unfoldable pub first_parse : List Plugin → List ℕ → ParseCtx → StepOutcome
first_parse [] bytes ctx = stop plugin_error
first_parse (p ∷ ps) bytes ctx = elim (try_parse p bytes ctx) [
  | some parsed ↦ layer p.name parsed false
  | none ↦ first_parse ps bytes ctx
]

unfoldable pub resolve_candidates : Engine → List RouteId → List ℕ → ParseCtx → StepOutcome
resolve_candidates e ids bytes ctx = elim (claimed e ids) [
  | [] ↦ elim ids [ [] ↦ stop plugin_error | first ∷ rest ↦ stop (unclaimed_route first) ]
  | p ∷ ps ↦ first_parse (p ∷ ps) bytes ctx
]

-- The prior of a candidate whose expected predecessor was just parsed.
unfoldable pub prior : Option LayerRecord → Plugin → ℕ → ℕ
prior none p score = score
prior (some l) p score =
    if contains p.expected_predecessors l.protocol
    then min (min (score + prior_boost) 255) 100
    else score

unfoldable pub score_pool : List Plugin → List ℕ → ParseCtx → List (ℕ × Plugin)
score_pool [] bytes ctx = []
score_pool (p ∷ ps) bytes ctx = elim (p.probe bytes ctx) [
  | none ↦ score_pool ps bytes ctx
  | some confidence ↦ (prior (prev ctx) p confidence, p) ∷ score_pool ps bytes ctx
]

-- `Engine::score_fallback_pool`
unfoldable pub score_fallback_pool : Engine → List ℕ → ParseCtx → List (ℕ × Plugin)
score_fallback_pool e bytes ctx = score_pool (fallback_pool e) bytes ctx

unfoldable pub above_floor : List (ℕ × Plugin) → List (ℕ × Plugin)
above_floor [] = []
above_floor ((score, p) ∷ cs) =
    let rest = above_floor cs in if leb min_confidence score then (score, p) ∷ rest else rest

-- The scan for the best candidate: a later one must score strictly more.
unfoldable pub best_from : ℕ → ℕ → ℕ → List (ℕ × Plugin) → ℕ
best_from i best best_score [] = best
best_from i best best_score ((score, p) ∷ cs) =
    best_from (i + 1) (if ltb best_score score then i else best)
      (if ltb best_score score then score else best_score) cs

unfoldable pub best_index : List (ℕ × Plugin) → ℕ
best_index [] = 0
best_index ((score, p) ∷ cs) = best_from 0 0 score ((score, p) ∷ cs)

-- `Vec::remove`
abbrev pub remove_at {ℓ} : {A : Type ℓ} → ℕ → List A → List A
remove_at i [] = []
remove_at zero (x ∷ xs) = xs
remove_at (suc i) (x ∷ xs) = x ∷ remove_at i xs

-- `while !candidates.is_empty()`: each turn removes one candidate, so their number is enough fuel.
unfoldable pub select :
    ℕ → List (ℕ × Plugin) → List ℕ → ParseCtx → Option (ProtocolName × ParsedLayer)
select zero cs bytes ctx = none
select (suc f) cs bytes ctx = elim (get_elem? cs (best_index cs)) [
  | none ↦ none
  | some (score, p) ↦ elim (try_parse p bytes ctx) [
    | some parsed ↦ some (p.name, parsed)
    | none ↦ select f (remove_at (best_index cs) cs) bytes ctx
  ]
]

-- `Engine::heuristic_fallback`
unfoldable pub heuristic_fallback : Engine → List ℕ → ParseCtx → Option (ProtocolName × ParsedLayer)
heuristic_fallback e bytes ctx =
    let cs = above_floor (score_fallback_pool e bytes ctx) in select (length cs) cs bytes ctx

abbrev pub heuristic_outcome : Option (ProtocolName × ParsedLayer) → StepOutcome
heuristic_outcome none = stop unknown_hint
heuristic_outcome (some (protocol, parsed)) = layer protocol parsed true

unfoldable pub resolve_hint : Engine → Hint → List ℕ → ParseCtx → StepOutcome
resolve_hint e Hint.terminal bytes ctx = stop terminal
resolve_hint e (route id) bytes ctx = elim (plugin_for_route e id) [
  | none ↦ stop (unclaimed_route id)
  | some p ↦ dispatch_explicit p bytes ctx
]
resolve_hint e (candidates ids) bytes ctx = resolve_candidates e ids bytes ctx
resolve_hint e (by_protocol name) bytes ctx = elim (plugin_by_name e name) [
  | none ↦ stop (unclaimed_route (custom name 0))
  | some p ↦ elim (try_parse p bytes ctx) [
    | some parsed ↦ layer p.name parsed false
    | none ↦ stop plugin_error
  ]
]
resolve_hint e unknown bytes ctx = heuristic_outcome (heuristic_fallback e bytes ctx)

-- `Engine::resolve_next`: an empty payload is complete whatever the hint.
unfoldable pub resolve_next : Engine → Hint → List ℕ → ParseCtx → StepOutcome
unfolding resolve_hint
resolve_next e hint [] ctx = stop complete
resolve_next e hint (b ∷ bytes) ctx = resolve_hint e hint (b ∷ bytes) ctx
