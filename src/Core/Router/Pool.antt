-- ===== src/Core/Router/Pool.antt =====
-- The fallback pool matters under one hint only (crates/pktflow-core/src/router.rs).
use pktflow.Prelude.{string_eq, ℕ, ◌≡◌, ◌≢◌, refl, List, [], ◌∷◌, arith}
use pktflow.Core.Route.{RouteId, route_id_eq}
use pktflow.Core.Plugin.{ParseCtx, Hint, route, candidates, by_protocol, unknown}
use pktflow.Core.Engine.{Engine, plugin_for_route, plugin_by_name}
use pktflow.Core.Router.{claimed, resolve_candidates, resolve_hint, resolve_next}

-- The engine with another set of plugins to probe.
abbrev pub with_pool : Engine → List ℕ → Engine
with_pool e pool = record e { fallback_pool = pool }

claimed-pool :
    (e : Engine) (pool : List ℕ) (ids : List RouteId)
    → claimed (with_pool e pool) ids ≡ claimed e ids
unfolding claimed plugin_for_route
claimed-pool e pool [] = refl
claimed-pool e pool (id ∷ ids) = ground (arith, claimed-pool e pool ids)

-- Only the hint `Unknown` opens the fallback pool: under any other hint the outcome is the same
-- whatever plugins could be probed, so no heuristic decides what follows a named header.
pub resolve_next-pool :
    (e : Engine) (pool : List ℕ) (hint : Hint) (bytes : List ℕ) (ctx : ParseCtx)
    → hint ≢ unknown
    → resolve_next (with_pool e pool) hint bytes ctx ≡ resolve_next e hint bytes ctx
unfolding resolve_next resolve_hint resolve_candidates plugin_for_route plugin_by_name
resolve_next-pool e pool hint [] ctx h = refl
resolve_next-pool e pool (route id) (b ∷ bytes) ctx h = refl
resolve_next-pool e pool (candidates ids) (b ∷ bytes) ctx h =
    rw (claimed-pool e pool ids, resolve_candidates) refl
resolve_next-pool e pool (by_protocol name) (b ∷ bytes) ctx h = refl
resolve_next-pool e pool unknown (b ∷ bytes) ctx h = absurd (h refl)
resolve_next-pool e pool Hint.terminal (b ∷ bytes) ctx h = refl
