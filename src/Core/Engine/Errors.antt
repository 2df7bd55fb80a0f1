-- ===== src/Core/Engine/Errors.antt =====
-- The ambiguities that `EngineBuilder::build` refuses (crates/pktflow-core/src/engine.rs): a name
-- registered twice, and an id claimed twice with no manual decision.
use pktflow.Prelude.{
  ℕ, ◌+◌, ◌≡◌, refl, List, [], ◌∷◌, ◌++◌, Bool, true, false, ◌||◌, none, some, ◌≟◌, string_eq,
  contains, arith, Option-cases, inl, inr, ltb, ◌≤◌, if◌then◌else◌,
}
use pktflow.Prelude.Map
use pktflow.Prelude.Map.{Map, get-insert, get-remove}
use pktflow.Prelude.Result.{ok}
use pktflow.Core.Route.{RouteId, route_id_eq}
use pktflow.Core.Packet.{ProtocolName}
use pktflow.Core.Plugin.{Plugin}
use pktflow.Core.Engine.{
  EngineBuilder, Engine, Collision, Table, claim, claim_all, install, settle, apply_unroutes,
  apply_overrides, no_collision, no_routes, build,
}
use pktflow.Core.Engine.Routes.{build-Built}

-- How often an id is claimed.
abbrev claims_in : RouteId → List RouteId → ℕ
claims_in id [] = 0
claims_in id (j ∷ ids) = (if j ≟ id then 1 else 0) + claims_in id ids

abbrev pub claim_count : RouteId → List Plugin → ℕ
claim_count id [] = 0
claim_count id (p ∷ ps) = claims_in id p.claims + claim_count id ps

abbrev collides : RouteId → List Collision → Bool
collides id [] = false
collides id (c ∷ cs) = (c.id ≟ id) || collides id cs

abbrev held : RouteId → Table → ℕ
held id t = elim (Map.get id t.routes) [ none ↦ 0 | some i ↦ 1 ]

collides-append_one :
    (id : RouteId) (cs : List Collision) (c : Collision)
    → collides id (cs ++ c ∷ []) ≡ (collides id cs || (c.id ≟ id))
collides-append_one id [] c = ground arith
collides-append_one id (d ∷ cs) c = ground (arith, collides-append_one id cs c)

-- An id collides once it is claimed beyond its first owner.
record Counts (id : RouteId) (t t' : Table) (n : ℕ) : Type 0 where
  held' : held id t' ≡ (if ltb 0 (held id t + n) then 1 else 0)
  clash : collides id t'.collisions ≡ (collides id t.collisions || ltb 1 (held id t + n))

claim-Counts :
    (idx : ℕ) (t : Table) (j id : RouteId) → Counts id t (claim idx t j) (if j ≟ id then 1 else 0)
unfolding claim
claim-Counts idx t j id = elim (Option-cases (Map.get j t.routes)) [
  | inl free ↦
      rw (free, claim)
        (record {
          held' = ground (arith, get-insert j id idx t.routes);
          clash = ground (arith, get-insert j id idx t.routes);
        })
  | inr (owner, taken) ↦
      rw (taken, claim)
        (record {
          held' = ground arith;
          clash = ground (
            arith,
            collides-append_one id t.collisions (record { id = j; first = owner; second = idx }),
          );
        })
]

Counts-trans :
    (id : RouteId) (t u v : Table) (n m : ℕ)
    → Counts id t u n
    → Counts id u v m
    → Counts id t v (n + m)
Counts-trans id t u v n m c d = record { held' = ground arith; clash = ground arith }

Counts-refl : (id : RouteId) (t : Table) → Counts id t t 0
Counts-refl id t = record { held' = ground arith; clash = ground arith }

claim_all-Counts :
    (idx : ℕ) (t : Table) (ids : List RouteId) (id : RouteId)
    → Counts id t (claim_all idx t ids) (claims_in id ids)
unfolding claim_all
claim_all-Counts idx t [] id = Counts-refl id t
claim_all-Counts idx t (j ∷ ids) id =
    Counts-trans id t (claim idx t j) (claim_all idx (claim idx t j) ids) (if j ≟ id then 1 else 0)
      (claims_in id ids) (claim-Counts idx t j id) (claim_all-Counts idx (claim idx t j) ids id)

install-Counts :
    (idx : ℕ) (ps : List Plugin) (t : Table) (id : RouteId)
    → Counts id t (install idx ps t) (claim_count id ps)
unfolding install
install-Counts idx [] t id = Counts-refl id t
install-Counts idx (p ∷ ps) t id =
    Counts-trans id t (claim_all idx t p.claims) (install (idx + 1) ps (claim_all idx t p.claims))
      (claims_in id p.claims) (claim_count id ps) (claim_all-Counts idx t p.claims id)
      (install-Counts (idx + 1) ps (claim_all idx t p.claims) id)

collides-settle :
    (j id : RouteId) (cs : List Collision)
    → collides id (settle j cs) ≡ (if j ≟ id then false else collides id cs)
unfolding settle
collides-settle j id [] = ground arith
collides-settle j id (c ∷ cs) = ground (arith, collides-settle j id cs)

collides-unroutes :
    (us : List RouteId) (t : Table) (id : RouteId)
    → collides id (apply_unroutes us t).collisions
      ≡ (if contains us id then false else collides id t.collisions)
unfolding apply_unroutes
collides-unroutes [] t id = refl
collides-unroutes (u ∷ us) t id = ground (
  arith,
  collides-unroutes us
      (record { routes = Map.remove u t.routes; collisions = settle u t.collisions }) id,
  collides-settle u id t.collisions,
)

-- A manual route for the id.
abbrev pub is_routed : RouteId → List (RouteId × ProtocolName) → Bool
is_routed id [] = false
is_routed id ((j, name) ∷ os) = (j ≟ id) || is_routed id os

collides-overrides :
    (by_name : Map ProtocolName ℕ) (os : List (RouteId × ProtocolName)) (t t' : Table)
    (id : RouteId)
    → apply_overrides by_name os t ≡ ok t'
    → collides id t'.collisions ≡ (if is_routed id os then false else collides id t.collisions)
unfolding apply_overrides
collides-overrides by_name [] t t' id h = ground arith
collides-overrides by_name ((j, name) ∷ os) t t' id h = elim (Option-cases (Map.get name by_name)) [
  | inl missing ↦ cc (rw (missing, apply_overrides) at h)
  | inr (idx, found) ↦
      let ih =
        collides-overrides by_name os
          (record { routes = Map.insert j idx t.routes; collisions = settle j t.collisions }) t' id
          (rw (found, apply_overrides) at h) in
      ground (arith, ih, collides-settle j id t.collisions)
]

no_collision-nil : (ps : List Plugin) (cs : List Collision) → no_collision ps cs ≡ ok tt → cs ≡ []
unfolding no_collision
no_collision-nil ps [] h = refl
no_collision-nil ps (c ∷ cs) h = cc

-- No ambiguity survives a build: an id that is claimed more than once, by two plugins or twice by
-- one, was settled by a manual `unroute` or `route`.
pub build-settled :
    (b : EngineBuilder) (e : Engine) (id : RouteId)
    → build b ≡ ok e
    → 2 ≤ claim_count id b.plugins
    → (contains b.unroutes id || is_routed id b.overrides) ≡ true
unfolding Map.get
build-settled b e id h twice =
    let built = build-Built b e h in
    let start = install 0 b.plugins no_routes in
    let clash = (install-Counts 0 b.plugins no_routes id).clash in
    let undone = collides-unroutes b.unroutes start id in
    let left =
      collides-overrides e.by_name b.overrides (apply_unroutes b.unroutes start) built.table id
        built.routed in
    let none_left : collides id built.table.collisions ≡ false =
      rw (no_collision-nil b.plugins built.table.collisions built.settled) in
    ground (arith, clash, undone, left, none_left)
