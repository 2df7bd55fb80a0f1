-- ===== src/Core/Engine.antt =====
-- The registry and its builder (crates/pktflow-core/src/engine.rs). A plugin index is a position in
-- the list of plugins; `plugins[idx]` of an index out of range, where the code would panic, is
-- `none` here.
pub mod Routes
pub mod Errors
use pktflow.Prelude.{
  ℕ, zero, suc, ◌+◌, List, [], ◌∷◌, ◌++◌, Bool, true, false, not, ◌&&◌, ◌||◌, Option, none, some,
  String, get_elem?, ◌≟◌, string_eq, ◌==◌, if◌then◌else◌,
}
use pktflow.Prelude.Map
use pktflow.Prelude.Map.{Map}
use pktflow.Prelude.Result.{Result, ok, err, ◌>>=◌}
use pktflow.Core.Route.{RouteId, route_id_eq}
use pktflow.Core.Packet.{ProtocolName}
use pktflow.Core.Stream.{
  KeyField, RollupSpec, accumulate, sample, series, StreamIdentity, CondenseSpec, endpoint_sort,
  custom,
}
use pktflow.Core.Plugin.{Plugin}

pub data RegistryError : Type 0 where
  duplicate_name : (name : ProtocolName) → RegistryError
  claim_collision : (id : RouteId) (first second : ProtocolName) → RegistryError
  dangling_override : (id : RouteId) (name : ProtocolName) → RegistryError
  invalid_identity : (plugin : ProtocolName) (reason : String) → RegistryError

pub record EngineBuilder : Type 0 where
  pub plugins : List Plugin
  pub overrides : List (RouteId × ProtocolName)
  pub unroutes : List RouteId

abbrev pub new : EngineBuilder
new = record { plugins = []; overrides = []; unroutes = [] }

-- `EngineBuilder::plugin`, `route` and `unroute`
unfoldable pub plugin : EngineBuilder → Plugin → EngineBuilder
plugin b p = record b { plugins = b.plugins ++ p ∷ [] }

unfoldable pub route : EngineBuilder → RouteId → ProtocolName → EngineBuilder
route b id protocol = record b { overrides = b.overrides ++ (id, protocol) ∷ [] }

unfoldable pub unroute : EngineBuilder → RouteId → EngineBuilder
unroute b id = record b { unroutes = b.unroutes ++ id ∷ [] }

pub record Engine : Type 0 where
  pub plugins : List Plugin
  pub by_name : Map ProtocolName ℕ
  pub routes : Map RouteId ℕ
  pub fallback_pool : List ℕ

-- Step 1: a name is registered once.
unfoldable pub index_names :
    ℕ → List Plugin → Map ProtocolName ℕ → Result RegistryError (Map ProtocolName ℕ)
index_names idx [] by_name = ok by_name
index_names idx (p ∷ ps) by_name = elim (Map.get p.name by_name) [
  | some other ↦ err (duplicate_name p.name)
  | none ↦ index_names (idx + 1) ps (Map.insert p.name idx by_name)
]

-- A collision is an id with the plugin that has it and the plugin that wants it.
pub record Collision : Type 0 where
  pub id : RouteId
  pub first : ℕ
  pub second : ℕ

pub record Table : Type 0 where
  pub routes : Map RouteId ℕ
  pub collisions : List Collision

-- Step 2: the first claim of an id is installed, a later one is a collision.
unfoldable pub claim : ℕ → Table → RouteId → Table
claim idx t id = elim (Map.get id t.routes) [
  | some owner ↦ record t {
    collisions = t.collisions ++ record { id = id; first = owner; second = idx } ∷ [];
  }
  | none ↦ record t { routes = Map.insert id idx t.routes }
]

unfoldable pub claim_all : ℕ → Table → List RouteId → Table
claim_all idx t [] = t
claim_all idx t (id ∷ ids) = claim_all idx (claim idx t id) ids

unfoldable pub install : ℕ → List Plugin → Table → Table
install idx [] t = t
install idx (p ∷ ps) t = install (idx + 1) ps (claim_all idx t p.claims)

-- `collisions.retain(|(cid, _, _)| cid != id)`
unfoldable pub settle : RouteId → List Collision → List Collision
settle id [] = []
settle id (c ∷ cs) = let rest = settle id cs in if c.id ≟ id then rest else c ∷ rest

unfoldable pub apply_unroutes : List RouteId → Table → Table
apply_unroutes [] t = t
apply_unroutes (id ∷ ids) t =
    apply_unroutes ids
      (record { routes = Map.remove id t.routes; collisions = settle id t.collisions })

-- Step 3: an override must name a registered plugin.
unfoldable pub apply_overrides :
    Map ProtocolName ℕ → List (RouteId × ProtocolName) → Table → Result RegistryError Table
apply_overrides by_name [] t = ok t
apply_overrides by_name ((id, name) ∷ rest) t = elim (Map.get name by_name) [
  | none ↦ err (dangling_override id name)
  | some idx ↦
      apply_overrides by_name rest
        (record { routes = Map.insert id idx t.routes; collisions = settle id t.collisions })
]

abbrev pub name_at : List Plugin → ℕ → ProtocolName
name_at ps idx = elim (get_elem? ps idx) [ none ↦ "" | some p ↦ p.name ]

unfoldable pub no_collision : List Plugin → List Collision → Result RegistryError (Unit {0})
no_collision ps [] = ok tt
no_collision ps (c ∷ cs) = err (claim_collision c.id (name_at ps c.first) (name_at ps c.second))

-- Step 4: no empty field name, no empty series.
unfoldable pub key_field_ok : KeyField → Bool
key_field_ok kf = not ((kf.a ≟ "") || elim kf.b [ none ↦ false | some b ↦ b ≟ "" ])

unfoldable pub check_key : ProtocolName → List KeyField → Result RegistryError (Unit {0})
check_key name [] = ok tt
check_key name (kf ∷ kfs) =
    if key_field_ok kf
    then check_key name kfs
    else err (invalid_identity name "empty key field name")

unfoldable pub check_rollups : ProtocolName → List RollupSpec → Result RegistryError (Unit {0})
check_rollups name [] = ok tt
check_rollups name (r ∷ rs) =
    let rest = check_rollups name rs in
    if r.field ≟ "" then err (invalid_identity name "empty rollup field name") else elim r.kind [
      | accumulate ↦ rest
      | sample ↦ rest
      | series cap ↦
          if cap == 0 then err (invalid_identity name "Series rollup cap must be nonzero") else rest
    ]

unfoldable pub check_identities : List Plugin → Result RegistryError (Unit {0})
check_identities [] = ok tt
check_identities (p ∷ ps) = elim p.stream_identity [
  | none ↦ check_identities ps
  | some identity ↦ (do
    _ ← check_key p.name identity.key
    _ ← check_rollups p.name identity.rollups
    check_identities ps)
]

-- Step 5: a condensed pair is a pair of the key, which is endpoint-sorted.
abbrev pub option_eq : Option String → Option String → Bool
option_eq none none = true
option_eq (some a) (some b) = a ≟ b
option_eq _ _ = false

unfoldable pub has_component : KeyField → List KeyField → Bool
has_component eph [] = false
has_component eph (kf ∷ kfs) = ((kf.a ≟ eph.a) && option_eq kf.b eph.b) || has_component eph kfs

unfoldable pub check_condense : Plugin → Result RegistryError (Unit {0})
check_condense p = elim p.condense [
  | none ↦ ok tt
  | some spec ↦ elim p.stream_identity [
    | none ↦ err (invalid_identity p.name "condense requires a stream identity")
    | some identity ↦ elim identity.canonicalize [
      | custom f ↦ err (invalid_identity p.name "condense requires EndpointSort canonicalization")
      | endpoint_sort ↦ elim spec.ephemeral.b [
        | none ↦ err (invalid_identity p.name "condense ephemeral must be a paired key component")
        | some b ↦
            if has_component spec.ephemeral identity.key
            then ok tt
            else err (invalid_identity p.name "condense ephemeral must be a paired key component")
      ]
    ]
  ]
]

unfoldable pub check_condenses : List Plugin → Result RegistryError (Unit {0})
check_condenses [] = ok tt
check_condenses (p ∷ ps) = do _ ← check_condense p; check_condenses ps

unfoldable pub probing : ℕ → List Plugin → List ℕ
probing idx [] = []
probing idx (p ∷ ps) = let rest = probing (idx + 1) ps in if p.has_probe then idx ∷ rest else rest

abbrev pub no_routes : Table
no_routes = record { routes = []; collisions = [] }

-- `EngineBuilder::build`
unfoldable pub build : EngineBuilder → Result RegistryError Engine
build b = do
  by_name ← index_names 0 b.plugins []
  t ←
      apply_overrides by_name b.overrides
        (apply_unroutes b.unroutes (install 0 b.plugins no_routes))
  _ ← no_collision b.plugins t.collisions
  _ ← check_identities b.plugins
  _ ← check_condenses b.plugins
  ok (record {
    plugins = b.plugins;
    by_name = by_name;
    routes = t.routes;
    fallback_pool = probing 0 b.plugins;
  })

abbrev pub nth_plugin : Engine → Option ℕ → Option Plugin
nth_plugin e none = none
nth_plugin e (some idx) = get_elem? e.plugins idx

-- `Engine::plugin_for_route`
unfoldable pub plugin_for_route : Engine → RouteId → Option Plugin
plugin_for_route e id = nth_plugin e (Map.get id e.routes)

-- `Engine::plugin_by_name`
unfoldable pub plugin_by_name : Engine → ProtocolName → Option Plugin
plugin_by_name e name = nth_plugin e (Map.get name e.by_name)

unfoldable pub plugins_at : List Plugin → List ℕ → List Plugin
plugins_at ps [] = []
plugins_at ps (idx ∷ ids) = elim (get_elem? ps idx) [
  | none ↦ plugins_at ps ids
  | some p ↦ p ∷ plugins_at ps ids
]

-- `Engine::fallback_pool`
unfoldable pub fallback_pool : Engine → List Plugin
unfolding plugins_at
fallback_pool e = plugins_at e.plugins e.fallback_pool
