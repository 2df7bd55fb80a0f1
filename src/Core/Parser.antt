-- ===== src/Core/Parser.antt =====
-- The lazy walk over the layers of a packet, and its eager form
-- (crates/pktflow-core/src/parser.rs).
pub mod Steps
pub mod Walk
use pktflow.Prelude.{
  ℕ, zero, suc, ◌+◌, ◌-◌, List, [], ◌∷◌, ◌++◌, Bool, true, false, ◌&&◌, Option, none, some, length,
  drop, leb, if◌then◌else◌,
}
use pktflow.Core.Route.{RouteId, link_type}
use pktflow.Core.Error.{
  StopReason, complete, terminal, unclaimed_route, unknown_hint, plugin_error, depth_cap,
}
use pktflow.Core.Packet.{ProtocolName, PacketMeta, LayerRecord, DissectedPacket, UnknownDiagnostics}
use pktflow.Core.Plugin.{Plugin, ParseOpts, ParseCtx, ParsedLayer, Hint, effective_depth}
use pktflow.Core.Engine.{Engine, plugin_for_route, plugin_by_name}
use pktflow.Core.Router.{
  StepOutcome, layer, stop, dispatch_explicit, heuristic_fallback, heuristic_outcome, resolve_next,
}
use pktflow.Core.Diagnostics.{diagnose_unknown}

pub record LayerStep : Type 0 where
  pub layer_record : LayerRecord
  pub payload : List ℕ
  pub via_heuristic : Bool

pub record LayerIter : Type 0 where
  pub engine : Engine
  pub bytes : List ℕ
  pub meta : PacketMeta
  pub opts : ParseOpts
  pub records : List LayerRecord
  pub cursor : ℕ
  pub pending : Option Hint
  pub started : Bool
  pub stop_reason : Option StopReason
  pub diagnostics : Option UnknownDiagnostics

unfoldable pub start : Engine → List ℕ → PacketMeta → ParseOpts → LayerIter
start e bytes meta opts = record {
  engine = e;
  bytes = bytes;
  meta = meta;
  opts = opts;
  records = [];
  cursor = 0;
  pending = none;
  started = false;
  stop_reason = none;
  diagnostics = none;
}

-- `Engine::layers`: `none` is the panic on a forced entry that no plugin is registered under.
unfoldable pub layers : Engine → List ℕ → PacketMeta → ParseOpts → Option LayerIter
unfolding start
layers e bytes meta opts = elim opts.entry [
  | none ↦ some (start e bytes meta opts)
  | some name ↦ elim (plugin_by_name e name) [
    | none ↦ none
    | some p ↦ some (start e bytes meta opts)
  ]
]

-- The tiers of an entry: forced, by link type, by heuristics if they are allowed.
unfoldable pub entry_outcome : Engine → List ℕ → ParseCtx → ParseOpts → ℕ → StepOutcome
entry_outcome e bytes ctx opts link = elim opts.entry [
  | some name ↦ elim (plugin_by_name e name) [
    | some p ↦ dispatch_explicit p bytes ctx
    | none ↦ stop plugin_error
  ]
  | none ↦ elim (plugin_for_route e (link_type link)) [
    | some p ↦ dispatch_explicit p bytes ctx
    | none ↦
        if opts.allow_entry_heuristics
        then heuristic_outcome (heuristic_fallback e bytes ctx)
        else stop (unclaimed_route (link_type link))
  ]
]

-- `Engine::resolve_entry`
unfoldable pub resolve_entry : Engine → List ℕ → ParseCtx → ParseOpts → ℕ → StepOutcome
unfolding entry_outcome
resolve_entry e [] ctx opts link = stop complete
resolve_entry e (b ∷ bytes) ctx opts link = entry_outcome e (b ∷ bytes) ctx opts link

unfoldable pub remaining : LayerIter → List ℕ
remaining it = drop it.cursor it.bytes

unfoldable pub context : LayerIter → ParseCtx
context it = record { layers = it.records; depth = effective_depth it.opts; meta = it.meta }

-- What the outcome of a resolution makes of the iterator. `via_resolve_next` is false for an entry.
unfoldable pub advance : LayerIter → Bool → StepOutcome → Option LayerStep × LayerIter
unfolding remaining context
advance it via_resolve_next (layer protocol parsed via_heuristic) =
    let rec : LayerRecord = record {
      protocol = protocol;
      offset = it.cursor;
      header_len = parsed.header_len;
      fields = parsed.fields;
    } in
    let cursor : ℕ = it.cursor + parsed.header_len in
    (
      some (record {
        layer_record = rec;
        payload = drop cursor it.bytes;
        via_heuristic = via_heuristic;
      }),
      record it { cursor = cursor; pending = some parsed.hint; records = it.records ++ rec ∷ [] },
    )
advance it via_resolve_next (stop reason) = (
  none,
  record it {
    stop_reason = some reason;
    diagnostics =
        if via_resolve_next && it.opts.diagnose_unknown
        then diagnose_unknown it.engine reason (remaining it) (context it)
        else it.diagnostics;
  },
)

-- The resolution of one step: by the pending hint once started, else as an entry.
unfoldable pub resolve : LayerIter → Option LayerStep × LayerIter
unfolding remaining context
resolve it =
    if it.started
    then (elim it.pending [
      | none ↦ (none, record it { stop_reason = some plugin_error })
      | some hint ↦
          advance (record it { pending = none }) true
            (resolve_next it.engine hint (remaining it) (context it))
    ])
    else advance (record it { started = true }) false
        (resolve_entry it.engine (remaining it) (context it) it.opts it.meta.link_type)

abbrev is_empty {ℓ} : {A : Type ℓ} → List A → Bool
is_empty [] = true
is_empty (x ∷ xs) = false

-- `Iterator::next`
unfoldable pub next : LayerIter → Option LayerStep × LayerIter
unfolding remaining
next it = elim it.stop_reason [
  | some reason ↦ (none, it)
  | none ↦
      if leb it.opts.max_layers (length it.records)
      then (
        none,
        record it { stop_reason = some (if is_empty (remaining it) then complete else depth_cap) },
      )
      else resolve it
]

-- `while self.next().is_some() {}`: a step adds a record, and there is room for `max_layers`.
unfoldable pub drain : ℕ → LayerIter → LayerIter
drain zero it = it
drain (suc fuel) it = elim (next it).0 [ none ↦ (next it).1 | some s ↦ drain fuel (next it).1 ]

-- `LayerIter::into_packet`
unfoldable pub into_packet : LayerIter → PacketMeta → DissectedPacket
into_packet it meta =
    let done = drain (suc it.opts.max_layers) it in
    record {
      meta = meta;
      layers = done.records;
      stop = elim done.stop_reason [ none ↦ complete | some reason ↦ reason ];
      opaque_len = length done.bytes - done.cursor;
      unknown = done.diagnostics;
    }

-- `Engine::dissect`; `none` is the panic of `layers`.
unfoldable pub dissect : Engine → List ℕ → PacketMeta → ParseOpts → Option DissectedPacket
dissect e bytes meta opts = elim (layers e bytes meta opts) [
  | none ↦ none
  | some it ↦ some (into_packet it meta)
]
