-- ===== src/Core/Parser/Steps.antt =====
-- What one step of the walk does to the iterator (crates/pktflow-core/src/parser.rs).
use pktflow.Prelude.{
  ℕ, suc, ◌+◌, ◌≤◌, ◌<◌, ◌≡◌, refl, List, [], ◌∷◌, ◌++◌, Bool, true, false, Option, none, some,
  length, length-append, length-drop, leb, arith, Option-cases, Bool-cases, inl, inr, string_eq,
}
use pktflow.Prelude.Map
use pktflow.Core.Route.{link_type, route_id_eq}
use pktflow.Core.Error.{StopReason}
use pktflow.Core.Packet.{ProtocolName, PacketMeta, LayerRecord}
use pktflow.Core.Plugin.{ParseOpts, ParseCtx, ParsedLayer, Hint}
use pktflow.Core.Engine.{Engine, plugin_for_route, plugin_by_name}
use pktflow.Core.Router.{StepOutcome, layer, stop, resolve_next}
use pktflow.Core.Router.Gate.{
  IsParsed, nth-Registered, dispatch-IsParsed, heuristic_outcome-IsParsed, resolve_next-IsParsed,
}
use pktflow.Core.Parser.{
  LayerIter, LayerStep, start, entry_outcome, resolve_entry, remaining, context, advance, resolve,
  next,
}

outcome-IsParsed :
    (e : Engine) (bytes : List ℕ) (ctx : ParseCtx) (opts : ParseOpts) (link : ℕ)
    (name : ProtocolName) (parsed : ParsedLayer) (via : Bool)
    → entry_outcome e bytes ctx opts link ≡ layer name parsed via
    → IsParsed e name bytes ctx parsed
unfolding entry_outcome plugin_by_name plugin_for_route
outcome-IsParsed e bytes ctx opts link name parsed via h = elim (Option-cases opts.entry) [
  | inr (n, forced) ↦ elim (Option-cases (plugin_by_name e n)) [
    | inl missing ↦ cc (rw (forced, missing, entry_outcome) at h)
    | inr (p, found) ↦
        dispatch-IsParsed e bytes ctx p name parsed via
          (nth-Registered e bytes ctx (Map.get n e.by_name) p found)
          (rw (forced, found, entry_outcome) at h)
  ]
  | inl free ↦ elim (Option-cases (plugin_for_route e (link_type link))) [
    | inr (p, found) ↦
        dispatch-IsParsed e bytes ctx p name parsed via
          (nth-Registered e bytes ctx (Map.get (link_type link) e.routes) p found)
          (rw (free, found, entry_outcome) at h)
    | inl missing ↦ elim (Bool-cases opts.allow_entry_heuristics) [
      | inl on ↦
          heuristic_outcome-IsParsed e bytes ctx name parsed via
            (rw (free, missing, on, entry_outcome) at h)
      | inr off ↦ cc (rw (free, missing, off, entry_outcome) at h)
    ]
  ]
]

entry-IsParsed :
    (e : Engine) (bytes : List ℕ) (ctx : ParseCtx) (opts : ParseOpts) (link : ℕ)
    (name : ProtocolName) (parsed : ParsedLayer) (via : Bool)
    → resolve_entry e bytes ctx opts link ≡ layer name parsed via
    → IsParsed e name bytes ctx parsed
unfolding resolve_entry
entry-IsParsed e [] ctx opts link name parsed via h = cc
entry-IsParsed e (b ∷ bytes) ctx opts link name parsed via h =
    outcome-IsParsed e (b ∷ bytes) ctx opts link name parsed via h

-- The records cover the packet from `o` to `c` without a gap.
abbrev pub Tiles : ℕ → List LayerRecord → ℕ → Type 0
Tiles o [] c = o ≡ c
Tiles o (r ∷ rs) c = (r.offset ≡ o) × Tiles (o + r.header_len) rs c

Tiles-append_one :
    (o c : ℕ) (rs : List LayerRecord) (r : LayerRecord)
    → Tiles o rs c
    → r.offset ≡ c
    → Tiles o (rs ++ r ∷ []) (c + r.header_len)
Tiles-append_one o c [] r t h = ground arith
Tiles-append_one o c (s ∷ rs) r t h = (t.0, Tiles-append_one (o + s.header_len) c rs r t.1 h)

-- Holds of an iterator between calls of `next`.
pub record IsWalking (it : LayerIter) : Type 0 where
  pub tiled : Tiles 0 it.records it.cursor
  pub inside : it.cursor ≤ length it.bytes
  pub capped : length it.records ≤ it.opts.max_layers

pub start-IsWalking :
    (e : Engine) (bytes : List ℕ) (meta : PacketMeta) (opts : ParseOpts)
    → IsWalking (start e bytes meta opts)
unfolding start
start-IsWalking e bytes meta opts = record {
  tiled = refl;
  inside = omega arith;
  capped = omega arith;
}

-- An outcome that is in order: a layer lies within the rest of the packet.
abbrev Fits : ℕ → StepOutcome → Type 0
Fits room (layer name parsed via) = parsed.header_len ≤ room
Fits room (stop reason) = Unit {0}

advance-IsWalking :
    (it : LayerIter) (via : Bool) (o : StepOutcome)
    → IsWalking it
    → length it.records < it.opts.max_layers
    → Fits (length (remaining it)) o
    → IsWalking (advance it via o).1
unfolding advance remaining
advance-IsWalking it via (stop reason) w room f = record {
  tiled = w.tiled;
  inside = w.inside;
  capped = w.capped;
}
advance-IsWalking it via (layer name parsed h) w room f = record {
  tiled = Tiles-append_one 0 it.cursor it.records _ w.tiled refl;
  inside = omega (arith, length-drop it.cursor it.bytes, w.inside);
  capped = omega (arith, length-append it.records (_ ∷ []), w.capped);
}

resolve_next-Fits :
    (e : Engine) (hint : Hint) (bytes : List ℕ) (ctx : ParseCtx)
    → Fits (length bytes) (resolve_next e hint bytes ctx)
resolve_next-Fits e hint bytes ctx = go (resolve_next e hint bytes ctx) refl
  where
    go : (o : StepOutcome) → resolve_next e hint bytes ctx ≡ o → Fits (length bytes) o
    go (stop reason) q = tt
    go (layer name parsed via) q = (resolve_next-IsParsed e hint bytes ctx name parsed via q).inside

resolve_entry-Fits :
    (e : Engine) (bytes : List ℕ) (ctx : ParseCtx) (opts : ParseOpts) (link : ℕ)
    → Fits (length bytes) (resolve_entry e bytes ctx opts link)
resolve_entry-Fits e bytes ctx opts link = go (resolve_entry e bytes ctx opts link) refl
  where
    go : (o : StepOutcome) → resolve_entry e bytes ctx opts link ≡ o → Fits (length bytes) o
    go (stop reason) q = tt
    go (layer name parsed via) q = (entry-IsParsed e bytes ctx opts link name parsed via q).inside

pub resolve-IsWalking :
    (it : LayerIter)
    → IsWalking it
    → length it.records < it.opts.max_layers
    → IsWalking (resolve it).1
unfolding resolve remaining
resolve-IsWalking it w room = elim (Bool-cases it.started) [
  | inr fresh ↦ rw fresh (
      advance-IsWalking (record it { started = true }) false _
        (record { tiled = w.tiled; inside = w.inside; capped = w.capped }) room
        (resolve_entry-Fits it.engine (remaining it) (context it) it.opts it.meta.link_type))
  | inl going ↦ elim (Option-cases it.pending) [
    | inl lost ↦
        rw (going, lost, resolve) (record { tiled = w.tiled; inside = w.inside; capped = w.capped })
    | inr (hint, found) ↦
        rw (going, found, resolve)
          (advance-IsWalking (record it { pending = none }) true _
            (record { tiled = w.tiled; inside = w.inside; capped = w.capped }) room
            (resolve_next-Fits it.engine hint (remaining it) (context it)))
  ]
]

-- What a call of `next` does to the iterator: it ends the walk, or adds one record.
abbrev pub Steps : LayerIter → Option LayerStep × LayerIter → Type 0
Steps it (none, it') =
    (it'.bytes ≡ it.bytes)
    × (it'.opts ≡ it.opts)
    × ((reason : StopReason) × (it'.stop_reason ≡ some reason))
Steps it (some s, it') =
    (it'.bytes ≡ it.bytes) × (it'.opts ≡ it.opts) × (length it'.records ≡ suc (length it.records))

advance-Steps : (it : LayerIter) (via : Bool) (o : StepOutcome) → Steps it (advance it via o)
unfolding advance
advance-Steps it via (stop reason) = (refl, refl, (reason, refl))
advance-Steps it via (layer name parsed h) =
    (refl, refl, omega (arith, length-append it.records (_ ∷ [])))

resolve-Steps : (it : LayerIter) → Steps it (resolve it)
unfolding resolve
resolve-Steps it = elim (Bool-cases it.started) [
  | inr fresh ↦ rw fresh (advance-Steps (record it { started = true }) false _)
  | inl going ↦ elim (Option-cases it.pending) [
    | inl lost ↦ rw (going, lost, resolve) (refl, refl, (_, refl))
    | inr (hint, found) ↦
        rw (going, found, resolve) (advance-Steps (record it { pending = none }) true _)
  ]
]

pub next-Steps : (it : LayerIter) → Steps it (next it)
unfolding next
next-Steps it = elim (Option-cases it.stop_reason) [
  | inr (reason, done) ↦ rw (done, next) (refl, refl, (reason, done))
  | inl open_ended ↦ elim (Bool-cases (leb it.opts.max_layers (length it.records))) [
    | inl full ↦ rw (open_ended, full, next) (refl, refl, (_, refl))
    | inr room ↦ rw (open_ended, room, next) (resolve-Steps it)
  ]
]
