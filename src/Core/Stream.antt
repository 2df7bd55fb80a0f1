-- ===== src/Core/Stream.antt =====
-- Stream identity declarations (crates/pktflow-core/src/stream.rs). A `&'static str` is a text, and
-- the function pointers of a declaration are functions.
use pktflow.Prelude.{ℕ, List, String, Option, Eq, ℕ_discrete}
use pktflow.Prelude.Result.{Result}
use pktflow.Core.Value.{FieldMap, FieldName}

-- `FlowKey` is opaque bytes.
pub record FlowKey : Type 0 where
  pub bytes : List ℕ

unfoldable pub FlowKey-discrete : Discrete FlowKey
unfolding ℕ_discrete
FlowKey-discrete = hlevel ℕ_discrete

instance abbrev pub flow_key_eq : Eq FlowKey
flow_key_eq = record { dec = FlowKey-discrete }

pub data PacketDirection : Type 0 where
  a_to_b b_to_a : PacketDirection

pub data KeyError : Type 0 where
  missing_field : FieldName → KeyError

abbrev pub StateName : Type 0
StateName = String

pub record KeyField : Type 0 where
  pub a : FieldName
  pub b : Option FieldName

pub data Canonicalize : Type 0 where
  endpoint_sort : Canonicalize
  custom : (FieldMap → Result KeyError (FlowKey × PacketDirection)) → Canonicalize

pub record LifecycleSpec : Type 0 where
  pub initial : StateName
  pub advance : FieldMap → StateName → PacketDirection → StateName
  pub closed_states : List StateName

pub data RollupKind : Type 0 where
  accumulate sample : RollupKind
  series : (cap : ℕ) → RollupKind

pub record RollupSpec : Type 0 where
  pub field : FieldName
  pub kind : RollupKind

pub record CondenseSpec : Type 0 where
  pub ephemeral : KeyField

pub record StreamIdentity : Type 0 where
  pub key : List KeyField
  pub canonicalize : Canonicalize
  pub lifecycle : Option LifecycleSpec
  pub rollups : List RollupSpec
