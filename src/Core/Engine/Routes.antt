-- ===== src/Core/Engine/Routes.antt =====
-- The tables that `EngineBuilder::build` makes (crates/pktflow-core/src/engine.rs): an id goes to
-- the last manual route, else nowhere if it was unrouted, else to the first plugin that claims it.
use pktflow.Prelude.{
  ℕ, suc, ◌+◌, ◌≡◌, refl, ap, ◌∙◌, List, [], ◌∷◌, Option, none, some, get_elem?, ◌≟◌, string_eq,
  contains, arith, Option-cases, inl, inr, if◌then◌else◌,
}
use pktflow.Prelude.Map
use pktflow.Prelude.Map.{Map, map_laws, get-insert, get-remove}
use pktflow.Prelude.Result.{ok, >>=-eq-ok}
use pktflow.Core.Route.{RouteId, route_id_eq}
use pktflow.Core.Packet.{ProtocolName}
use pktflow.Core.Plugin.{Plugin}
use pktflow.Core.Engine.{
  EngineBuilder, Engine, index_names, Table, claim, claim_all, install, settle, apply_unroutes,
  apply_overrides, no_collision, check_identities, check_condenses, probing, no_routes, build,
  plugin_by_name,
}

abbrev or_else : Option ℕ → Option ℕ → Option ℕ
or_else none o = o
or_else (some i) o = some i

-- The first plugin that claims an id, counting from `idx`.
pub first_claim : ℕ → List Plugin → RouteId → Option ℕ
first_claim idx [] id = none
first_claim idx (p ∷ ps) id = if contains p.claims id then some idx else first_claim (idx + 1) ps id

-- What the manual routes make of an id: the last of its routes counts.
pub overridden : Map ProtocolName ℕ → List (RouteId × ProtocolName) → RouteId → Option ℕ → Option ℕ
overridden by_name [] id o = o
overridden by_name ((j, name) ∷ rest) id o =
    overridden by_name rest id (if j ≟ id then Map.get name by_name else o)

routes-claim_all :
    (idx : ℕ) (t : Table) (ids : List RouteId) (id : RouteId)
    → Map.get id (claim_all idx t ids).routes
      ≡ or_else (Map.get id t.routes) (if contains ids id then some idx else none)
unfolding claim_all claim
routes-claim_all idx t [] id = ground arith
routes-claim_all idx t (j ∷ ids) id =
    ground (arith, routes-claim_all idx (claim idx t j) ids id, get-insert j id idx t.routes)

routes-install :
    (idx : ℕ) (ps : List Plugin) (t : Table) (id : RouteId)
    → Map.get id (install idx ps t).routes ≡ or_else (Map.get id t.routes) (first_claim idx ps id)
unfolding install first_claim
routes-install idx [] t id = ground arith
routes-install idx (p ∷ ps) t id = ground (
  arith,
  routes-install (idx + 1) ps (claim_all idx t p.claims) id,
  routes-claim_all idx t p.claims id,
)

routes-apply_unroutes :
    (us : List RouteId) (t : Table) (id : RouteId)
    → Map.get id (apply_unroutes us t).routes
      ≡ (if contains us id then none else Map.get id t.routes)
unfolding apply_unroutes
routes-apply_unroutes [] t id = refl
routes-apply_unroutes (u ∷ us) t id = ground (
  arith,
  routes-apply_unroutes us
      (record { routes = Map.remove u t.routes; collisions = settle u t.collisions }) id,
  get-remove u id t.routes,
)

routes-apply_overrides :
    (by_name : Map ProtocolName ℕ) (os : List (RouteId × ProtocolName)) (t t' : Table)
    (id : RouteId)
    → apply_overrides by_name os t ≡ ok t'
    → Map.get id t'.routes ≡ overridden by_name os id (Map.get id t.routes)
unfolding apply_overrides overridden
routes-apply_overrides by_name [] t t' id h = ground arith
routes-apply_overrides by_name ((j, name) ∷ os) t t' id h =
    elim (Option-cases (Map.get name by_name)) [
      | inl missing ↦ cc (rw (missing, apply_overrides) at h)
      | inr (idx, found) ↦
          let ih =
            routes-apply_overrides by_name os
              (record { routes = Map.insert j idx t.routes; collisions = settle j t.collisions }) t'
              id (rw (found, apply_overrides) at h) in
          ground (arith, ih, get-insert j id idx t.routes)
    ]

-- The parts of a build that succeeds.
pub record Built (b : EngineBuilder) (e : Engine) : Type 0 where
  pub table : Table
  pub indexed : index_names 0 b.plugins [] ≡ ok e.by_name
  pub routed :
      apply_overrides e.by_name b.overrides
        (apply_unroutes b.unroutes (install 0 b.plugins no_routes))
      ≡ ok table
  pub settled : no_collision b.plugins table.collisions ≡ ok tt
  pub same_plugins : e.plugins ≡ b.plugins
  pub same_routes : e.routes ≡ table.routes
  pub pool : e.fallback_pool ≡ probing 0 b.plugins

pub build-Built : (b : EngineBuilder) (e : Engine) → build b ≡ ok e → Built b e
unfolding build
build-Built b e h =
    let (by_name, indexed, h1) = >>=-eq-ok (index_names 0 b.plugins []) _ h in
    let (t, routed, h2) = >>=-eq-ok (apply_overrides by_name b.overrides start) _ h1 in
    let (_, settled, h3) = >>=-eq-ok (no_collision b.plugins t.collisions) _ h2 in
    let (_, _, h4) = >>=-eq-ok (check_identities b.plugins) _ h3 in
    let (_, _, h5) = >>=-eq-ok (check_condenses b.plugins) _ h4 in
    record {
      table = t;
      indexed = ground arith;
      routed = ground arith;
      settled = ground arith;
      same_plugins = ground arith;
      same_routes = ground arith;
      pool = ground arith;
    }
  where
    start : Table
    start = apply_unroutes b.unroutes (install 0 b.plugins no_routes)

-- A successful build routes every id by the rule: the last manual route of the id decides; without
-- one, an unrouted id goes nowhere, and any other to the first plugin in order that claims it.
pub routes-build :
    (b : EngineBuilder) (e : Engine) (id : RouteId)
    → build b ≡ ok e
    → Map.get id e.routes
      ≡ overridden e.by_name b.overrides id
          (if contains b.unroutes id then none else first_claim 0 b.plugins id)
unfolding Map.get
routes-build b e id h =
    let built = build-Built b e h in
    let start = install 0 b.plugins no_routes in
    rw built.same_routes (
      routes-apply_overrides e.by_name b.overrides (apply_unroutes b.unroutes start) built.table id
        built.routed
      ∙ ap (overridden e.by_name b.overrides id) (
          routes-apply_unroutes b.unroutes start id
          ∙ ap (λ o. if contains b.unroutes id then none else o)
              (routes-install 0 b.plugins no_routes id)))

-- The first plugin of a name.
pub find_plugin : List Plugin → ProtocolName → Option Plugin
find_plugin [] name = none
find_plugin (p ∷ ps) name = if p.name ≟ name then some p else find_plugin ps name

pub find_index : ℕ → List Plugin → ProtocolName → Option ℕ
find_index idx [] name = none
find_index idx (p ∷ ps) name = if p.name ≟ name then some idx else find_index (idx + 1) ps name

names-index_names :
    (idx : ℕ) (ps : List Plugin) (m m' : Map ProtocolName ℕ) (name : ProtocolName)
    → index_names idx ps m ≡ ok m'
    → Map.get name m' ≡ or_else (Map.get name m) (find_index idx ps name)
unfolding index_names find_index
names-index_names idx [] m m' name h = ground arith
names-index_names idx (p ∷ ps) m m' name h = elim (Option-cases (Map.get p.name m)) [
  | inr (other, found) ↦ cc (rw (found, index_names) at h)
  | inl free ↦
      let ih =
        names-index_names (idx + 1) ps (Map.insert p.name idx m) m' name
          (rw (free, index_names) at h) in
      ground (arith, ih, get-insert p.name name idx m)
]

nth_plugin-find_index :
    (all ps : List Plugin) (idx : ℕ) (name : ProtocolName)
    → ((i : ℕ) → get_elem? all (i + idx) ≡ get_elem? ps i)
    → elim (find_index idx ps name) [ none ↦ none | some i ↦ get_elem? all i ] ≡ find_plugin ps name
unfolding find_index find_plugin
nth_plugin-find_index all [] idx name h = refl
nth_plugin-find_index all (p ∷ ps) idx name h =
    let here : get_elem? all idx ≡ some p = let z : 0 + idx ≡ idx = omega arith in rw z at (h 0) in
    let ih =
      nth_plugin-find_index all ps (idx + 1) name
        (λ i. let s : i + (idx + 1) ≡ suc i + idx = omega arith in rw s (h (suc i))) in
    ground (arith, here, ih)

-- After a successful build a name finds the first plugin registered under it, and no index that the
-- tables hold is out of range on this path.
pub plugin_by_name-build :
    (b : EngineBuilder) (e : Engine) (name : ProtocolName)
    → build b ≡ ok e
    → plugin_by_name e name ≡ find_plugin b.plugins name
unfolding plugin_by_name Map.get
plugin_by_name-build b e name h =
    let built = build-Built b e h in
    let index = names-index_names 0 b.plugins [] e.by_name name built.indexed in
    let found =
      nth_plugin-find_index b.plugins b.plugins 0 name
        (λ i. let z : i + 0 ≡ i = omega arith in rw z) in
    ground (arith, index, found, built.same_plugins)
