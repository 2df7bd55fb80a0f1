-- ===== src/Core/Router/Gate.antt =====
-- The gate of crates/pktflow-core/src/router.rs: what is let through comes from a registered plugin.
use pktflow.Prelude.{
  string_eq, ℕ, zero, suc, ◌≤◌, ◌≡◌, refl, ap, ◌∙◌, List, [], ◌∷◌, Bool, true, false, Option, none,
  some, length, get_elem?, arith, Option-cases, inl, inr, leb, Bool-cases,
}
use pktflow.Prelude.Result.{ok}
use pktflow.Prelude.Map
use pktflow.Core.Route.{RouteId, route_id_eq}
use pktflow.Core.Packet.{ProtocolName}
use pktflow.Core.Plugin.{
  Plugin, ParseCtx, ParsedLayer, Hint, route, candidates, by_protocol, unknown,
}
use pktflow.Core.Engine.{
  Engine, plugin_for_route, plugin_by_name, plugins_at, fallback_pool, nth_plugin,
}
use pktflow.Core.Router.{
  layer, try_parse, dispatch_explicit, claimed, first_parse, resolve_candidates, score_pool,
  score_fallback_pool, above_floor, select, best_index, remove_at, heuristic_fallback,
  heuristic_outcome, resolve_hint, resolve_next,
}

-- A layer of a registered plugin's making, inside the input.
pub record IsParsed (e : Engine) (name : ProtocolName) (bytes : List ℕ) (ctx : ParseCtx)
    (parsed : ParsedLayer) : Type 0 where
  pub index : ℕ
  pub plugin : Plugin
  pub registered : get_elem? e.plugins index ≡ some plugin
  pub named : plugin.name ≡ name
  pub made : plugin.parse bytes ctx ≡ ok parsed
  pub inside : parsed.header_len ≤ length bytes

module _ (e : Engine) (bytes : List ℕ) (ctx : ParseCtx) where
  abbrev pub Registered : Plugin → Type 0
  Registered p = (i : ℕ) × (get_elem? e.plugins i ≡ some p)

  abbrev AllRegistered : List Plugin → Type 0
  AllRegistered [] = Unit {0}
  AllRegistered (p ∷ ps) = Registered p × AllRegistered ps

  try_parse-IsParsed :
      (p : Plugin) (parsed : ParsedLayer)
      → Registered p
      → try_parse p bytes ctx ≡ some parsed
      → IsParsed e p.name bytes ctx parsed
  unfolding try_parse
  try_parse-IsParsed p parsed (i, r) h = record {
    index = i;
    plugin = p;
    registered = r;
    named = refl;
    made = ground arith;
    inside = ground arith;
  }

  found-IsParsed :
      (p : Plugin) (name : ProtocolName) (found parsed : ParsedLayer)
      → Registered p
      → try_parse p bytes ctx ≡ some found
      → p.name ≡ name
      → found ≡ parsed
      → IsParsed e name bytes ctx parsed
  found-IsParsed p name found parsed r h n q =
      let i = try_parse-IsParsed p found r h in
      record {
        index = i.index;
        plugin = i.plugin;
        registered = i.registered;
        named = i.named ∙ n;
        made = i.made ∙ ap ok q;
        inside = rw (← q) i.inside;
      }

  pub dispatch-IsParsed :
      (p : Plugin) (name : ProtocolName) (parsed : ParsedLayer) (via : Bool)
      → Registered p
      → dispatch_explicit p bytes ctx ≡ layer name parsed via
      → IsParsed e name bytes ctx parsed
  unfolding dispatch_explicit
  dispatch-IsParsed p name parsed via (i, r) h = record {
    index = i;
    plugin = p;
    registered = r;
    named = ground arith;
    made = ground arith;
    inside = ground arith;
  }

  pub nth-Registered : (o : Option ℕ) (p : Plugin) → nth_plugin e o ≡ some p → Registered p
  nth-Registered none p h = cc
  nth-Registered (some i) p h = (i, h)

  claimed-Registered : (ids : List RouteId) → AllRegistered (claimed e ids)
  unfolding claimed plugin_for_route
  claimed-Registered [] = tt
  claimed-Registered (id ∷ ids) = elim (Option-cases (plugin_for_route e id)) [
    | inl missing ↦ rw (missing, claimed) (claimed-Registered ids)
    | inr (p, found) ↦
        rw (found, claimed)
          (unfold claimed in (nth-Registered (Map.get id e.routes) p found, claimed-Registered ids))
  ]

  first_parse-IsParsed :
      (ps : List Plugin) (name : ProtocolName) (parsed : ParsedLayer) (via : Bool)
      → AllRegistered ps
      → first_parse ps bytes ctx ≡ layer name parsed via
      → IsParsed e name bytes ctx parsed
  unfolding first_parse
  first_parse-IsParsed [] name parsed via r h = cc
  first_parse-IsParsed (p ∷ ps) name parsed via r h = elim (Option-cases (try_parse p bytes ctx)) [
    | inl miss ↦ first_parse-IsParsed ps name parsed via r.1 (rw (miss, first_parse) at h)
    | inr (found, hit) ↦
        let same : layer p.name found false ≡ layer name parsed via = rw (hit, first_parse) at h in
        found-IsParsed p name found parsed r.0 hit (cc same) (cc same)
  ]

  at-Registered : (ids : List ℕ) → AllRegistered (plugins_at e.plugins ids)
  unfolding plugins_at
  at-Registered [] = tt
  at-Registered (i ∷ ids) = elim (Option-cases (get_elem? e.plugins i)) [
    | inl missing ↦ rw (missing, plugins_at) (at-Registered ids)
    | inr (p, found) ↦ rw (found, plugins_at) ((i, found), at-Registered ids)
  ]

  abbrev AllScored : List (ℕ × Plugin) → Type 0
  AllScored [] = Unit {0}
  AllScored ((s, p) ∷ cs) = Registered p × AllScored cs

  score_pool-Registered :
      (ps : List Plugin) → AllRegistered ps → AllScored (score_pool ps bytes ctx)
  unfolding score_pool
  score_pool-Registered [] r = tt
  score_pool-Registered (p ∷ ps) r = elim (Option-cases (p.probe bytes ctx)) [
    | inl missing ↦ rw (missing, score_pool) (score_pool-Registered ps r.1)
    | inr (c, found) ↦ rw (found, score_pool) (r.0, score_pool-Registered ps r.1)
  ]

  above_floor-Registered : (cs : List (ℕ × Plugin)) → AllScored cs → AllScored (above_floor cs)
  unfolding above_floor
  above_floor-Registered [] r = tt
  above_floor-Registered ((s, p) ∷ cs) r = elim (Bool-cases (leb 50 s)) [
    | inl t ↦ rw (t, above_floor) (r.0, above_floor-Registered cs r.1)
    | inr f ↦ rw (f, above_floor) (above_floor-Registered cs r.1)
  ]

  remove_at-Registered :
      (i : ℕ) (cs : List (ℕ × Plugin)) → AllScored cs → AllScored (remove_at i cs)
  remove_at-Registered zero [] r = tt
  remove_at-Registered (suc i) [] r = tt
  remove_at-Registered zero (c ∷ cs) r = r.1
  remove_at-Registered (suc i) (c ∷ cs) r = (r.0, remove_at-Registered i cs r.1)

  get-Registered :
      (cs : List (ℕ × Plugin)) (i s : ℕ) (p : Plugin)
      → AllScored cs
      → get_elem? cs i ≡ some (s, p)
      → Registered p
  get-Registered [] i s p r h = cc
  get-Registered ((t, q) ∷ cs) zero s p r h = let same : q ≡ p = cc h in rw same at r.0
  get-Registered (c ∷ cs) (suc i) s p r h = get-Registered cs i s p r.1 h

  select-IsParsed :
      (f : ℕ) (cs : List (ℕ × Plugin)) (name : ProtocolName) (parsed : ParsedLayer)
      → AllScored cs
      → select f cs bytes ctx ≡ some (name, parsed)
      → IsParsed e name bytes ctx parsed
  unfolding select
  select-IsParsed zero cs name parsed r h = cc
  select-IsParsed (suc f) cs name parsed r h = elim (Option-cases (get_elem? cs (best_index cs))) [
    | inl missing ↦ cc (rw (missing, select) at h)
    | inr ((s, p), found) ↦ elim (Option-cases (try_parse p bytes ctx)) [
      | inl miss ↦
          select-IsParsed f (remove_at (best_index cs) cs) name parsed
            (remove_at-Registered (best_index cs) cs r) (rw (found, miss, select) at h)
      | inr (made, hit) ↦
          let same : ◌≡◌ {A = Option (ProtocolName × ParsedLayer)} (some (p.name, made))
              (some (name, parsed)) =
            rw (found, hit, select) at h in
          found-IsParsed p name made parsed (get-Registered cs (best_index cs) s p r found) hit
            (cc same) (cc same)
    ]
  ]

  fallback-IsParsed :
      (name : ProtocolName) (parsed : ParsedLayer)
      → heuristic_fallback e bytes ctx ≡ some (name, parsed)
      → IsParsed e name bytes ctx parsed
  unfolding heuristic_fallback score_fallback_pool fallback_pool
  fallback-IsParsed name parsed h =
      let scored = score_pool-Registered (fallback_pool e) (at-Registered e.fallback_pool) in
      select-IsParsed _ (above_floor (score_fallback_pool e bytes ctx)) name parsed
        (above_floor-Registered (score_pool (fallback_pool e) bytes ctx) scored) h

  candidates-IsParsed :
      (ids : List RouteId) (name : ProtocolName) (parsed : ParsedLayer) (via : Bool)
      → resolve_candidates e ids bytes ctx ≡ layer name parsed via
      → IsParsed e name bytes ctx parsed
  unfolding resolve_candidates
  candidates-IsParsed ids name parsed via h = go (claimed e ids) refl
    where
      go : (ps : List Plugin) → claimed e ids ≡ ps → IsParsed e name bytes ctx parsed
      go [] q = ground arith
      go (p ∷ ps) q =
          first_parse-IsParsed (p ∷ ps) name parsed via (rw q at (claimed-Registered ids))
            (rw (q, resolve_candidates) at h)

  pub heuristic_outcome-IsParsed :
      (name : ProtocolName) (parsed : ParsedLayer) (via : Bool)
      → heuristic_outcome (heuristic_fallback e bytes ctx) ≡ layer name parsed via
      → IsParsed e name bytes ctx parsed
  heuristic_outcome-IsParsed name parsed via h =
      elim (Option-cases (heuristic_fallback e bytes ctx)) [
        | inl missing ↦ cc (rw missing at h)
        | inr ((q, made), found) ↦
            let same : layer q made true ≡ layer name parsed via = rw found at h in
            fallback-IsParsed name parsed (cc (found, same))
      ]

  hint-IsParsed :
      (hint : Hint) (name : ProtocolName) (parsed : ParsedLayer) (via : Bool)
      → resolve_hint e hint bytes ctx ≡ layer name parsed via
      → IsParsed e name bytes ctx parsed
  unfolding resolve_hint plugin_for_route plugin_by_name
  hint-IsParsed Hint.terminal name parsed via h = cc
  hint-IsParsed (route id) name parsed via h = elim (Option-cases (plugin_for_route e id)) [
    | inl missing ↦ cc (rw (missing, resolve_hint) at h)
    | inr (p, found) ↦
        dispatch-IsParsed p name parsed via (nth-Registered (Map.get id e.routes) p found)
          (rw (found, resolve_hint) at h)
  ]
  hint-IsParsed (candidates ids) name parsed via h = candidates-IsParsed ids name parsed via h
  hint-IsParsed (by_protocol q) name parsed via h = elim (Option-cases (plugin_by_name e q)) [
    | inl missing ↦ cc (rw (missing, resolve_hint) at h)
    | inr (p, found) ↦ elim (Option-cases (try_parse p bytes ctx)) [
      | inl miss ↦ cc (rw (found, miss, resolve_hint) at h)
      | inr (made, hit) ↦
          let same : layer p.name made false ≡ layer name parsed via =
            rw (found, hit, resolve_hint) at h in
          found-IsParsed p name made parsed (nth-Registered (Map.get q e.by_name) p found) hit
            (cc same) (cc same)
    ]
  ]
  hint-IsParsed unknown name parsed via h = heuristic_outcome-IsParsed name parsed via h

-- Whatever the hint, a layer is emitted only if a registered plugin of its name parsed exactly these
-- bytes and the header that it reports lies within them.
pub resolve_next-IsParsed :
    (e : Engine) (hint : Hint) (bytes : List ℕ) (ctx : ParseCtx) (name : ProtocolName)
    (parsed : ParsedLayer) (via : Bool)
    → resolve_next e hint bytes ctx ≡ layer name parsed via
    → IsParsed e name bytes ctx parsed
unfolding resolve_next
resolve_next-IsParsed e hint [] ctx name parsed via h = cc
resolve_next-IsParsed e hint (b ∷ bytes) ctx name parsed via h =
    hint-IsParsed e (b ∷ bytes) ctx hint name parsed via h
