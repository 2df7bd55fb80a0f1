-- ===== src/Core/Plugin.antt =====
-- The plugin contract and what a plugin sees (crates/pktflow-core/src/plugin.rs, context.rs and
-- depth.rs). A `dyn LayerPlugin` is a record of its methods.
use pktflow.Prelude.{
  ℕ, List, [], ◌∷◌, Option, none, some, Bool, ◌≟◌, string_eq, leb, min, if◌then◌else◌,
}
use pktflow.Prelude.Result.{Result}
use pktflow.Core.Value.{Value, FieldMap, FieldName, get}
use pktflow.Core.Route.{RouteId}
use pktflow.Core.Error.{ParseError}
use pktflow.Core.Packet.{ProtocolName, PacketMeta, LayerRecord}
use pktflow.Core.Stream.{StreamIdentity, CondenseSpec}

pub data Depth : Type 0 where
  nothing keys structural full : Depth

-- The derived order of `Depth`, as its rank.
abbrev pub rank : Depth → ℕ
rank nothing = 0
rank keys = 1
rank structural = 2
rank full = 3

-- `self >= other`
abbrev pub at_least : Depth → Depth → Bool
at_least d e = leb (rank e) (rank d)

pub record ParseOpts : Type 0 where
  pub depth : Depth
  pub aggregation : Bool
  pub max_layers : ℕ
  pub entry : Option ProtocolName
  pub allow_entry_heuristics : Bool
  pub diagnose_unknown : Bool

-- `ParseOpts::effective_depth`: aggregation never goes below the flow keys.
unfoldable pub effective_depth : ParseOpts → Depth
effective_depth o =
    if o.aggregation then (if at_least o.depth keys then o.depth else keys) else o.depth

pub record ParseCtx : Type 0 where
  pub layers : List LayerRecord
  pub depth : Depth
  pub meta : PacketMeta

-- `ParseCtx::prev`: the innermost layer so far.
unfoldable pub last_layer : List LayerRecord → Option LayerRecord
last_layer [] = none
last_layer (l ∷ []) = some l
last_layer (l ∷ m ∷ ls) = last_layer (m ∷ ls)

unfoldable pub prev : ParseCtx → Option LayerRecord
unfolding last_layer
prev c = last_layer c.layers

unfoldable pub innermost : ProtocolName → List LayerRecord → Option LayerRecord
innermost p [] = none
innermost p (l ∷ ls) = elim (innermost p ls) [
  | some m ↦ some m
  | none ↦ if l.protocol ≟ p then some l else none
]

-- `ParseCtx::layer`: the innermost layer of a protocol.
unfoldable pub layer : ParseCtx → ProtocolName → Option LayerRecord
unfolding innermost
layer c p = innermost p c.layers

-- `ParseCtx::field`
unfoldable pub field : ParseCtx → ProtocolName → FieldName → Option Value
unfolding layer get
field c p f = elim (layer c p) [ none ↦ none | some l ↦ get l.fields f ]

pub data Hint : Type 0 where
  route : RouteId → Hint
  candidates : List RouteId → Hint
  by_protocol : ProtocolName → Hint
  unknown terminal : Hint

-- `Confidence::new`: scores above 100 are cut off.
unfoldable pub confidence : ℕ → ℕ
confidence score = min score 100

pub record ParsedLayer : Type 0 where
  pub header_len : ℕ
  pub fields : FieldMap
  pub hint : Hint

-- `ParsedLayer::header_len_ok`
unfoldable pub header_len_ok : ParsedLayer → ℕ → Bool
header_len_ok p available = leb p.header_len available

pub record Plugin : Type 0 where
  pub name : ProtocolName
  pub parse : List ℕ → ParseCtx → Result ParseError ParsedLayer
  pub claims : List RouteId
  pub expected_predecessors : List ProtocolName
  pub has_probe : Bool
  pub probe : List ℕ → ParseCtx → Option ℕ
  pub stream_identity : Option StreamIdentity
  pub condense : Option CondenseSpec
