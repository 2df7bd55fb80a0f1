-- ===== src/Flows/Store/Candidates.antt =====
-- The anchors of a flow (condense_candidates of crates/pktflow-flows/src/store.rs).
use pktflow.Prelude.{
  ℕ, List, [], ◌∷◌, ◌++◌, Bool, true, false, ◌&&◌, Option, none, some, ◌≟◌, string_eq, bytes_eq,
  nat_eq, if◌then◌else◌,
}
use pktflow.Core.Value
use pktflow.Core.Value.{Value, FieldName, FieldMap, empty}
use pktflow.Core.Stream.{PacketDirection, a_to_b, b_to_a, KeyField, StreamIdentity, CondenseSpec}
use pktflow.Flows.Key.{KeyBuf, encode_value, slice_le}
use pktflow.Flows.Store.{condense_key_eq, Hasher}

abbrev pub condense_member_cap : ℕ
condense_member_cap = 65536

abbrev pub condensed_key_sentinel : ℕ
condensed_key_sentinel = 254

pub record CondenseCandidate : Type 0 where
  pub anchor : KeyBuf
  pub anchor_field : FieldName
  pub anchor_value : Value
  pub varying_digest : ℕ
  pub fold_dir : PacketDirection

abbrev pub value_encoding : Value → KeyBuf
value_encoding v = encode_value v []

infixl 5 ◌>>=◌
abbrev pub ◌>>=◌ {ℓ κ} : {A : Type ℓ} {B : Type κ} → Option A → (A → Option B) → Option B
none >>= f = none
some a >>= f = f a

-- `kf.a == eph.a && kf.b == eph.b`
unfoldable pub same_component : KeyField → KeyField → Bool
same_component x y = (x.a ≟ y.a) && (elim x.b [
  | none ↦ elim y.b [ none ↦ true | some c ↦ false ]
  | some b ↦ elim y.b [ none ↦ false | some c ↦ b ≟ c ]
])

-- One component that is not the ephemeral pair, behind the prefix so far.
unfoldable pub prefix_component : FieldMap → KeyBuf → KeyField → Option KeyBuf
unfolding encode_value slice_le Value.get
prefix_component fields prefix kf = elim kf.b [
  | none ↦ (do v ← Value.get fields kf.a; some (encode_value v prefix))
  | some b ↦ (do
    va ← Value.get fields kf.a
    vb ← Value.get fields b
    let ea = value_encoding va in
        let eb = value_encoding vb in
        some (if slice_le ea eb then prefix ++ ea ++ eb else prefix ++ eb ++ ea))
]

unfoldable pub anchor_prefix : FieldMap → KeyField → List KeyField → KeyBuf → Option KeyBuf
unfolding prefix_component same_component
anchor_prefix fields eph [] prefix = some prefix
anchor_prefix fields eph (kf ∷ kfs) prefix =
    if same_component kf eph
    then anchor_prefix fields eph kfs prefix
    else (do p ← prefix_component fields prefix kf; anchor_prefix fields eph kfs p)

-- `condense_candidates`: the candidates that are there, in order.
unfoldable pub condense_candidates :
    Hasher → StreamIdentity → CondenseSpec → FieldMap → Option (List CondenseCandidate)
unfolding anchor_prefix encode_value Value.get
condense_candidates hasher identity spec fields = do
  b_name ← spec.ephemeral.b
  va ← Value.get fields spec.ephemeral.a
  vb ← Value.get fields b_name
  prefix ← anchor_prefix fields spec.ephemeral identity.key []
  let enc_a = value_encoding va in
      let enc_b = value_encoding vb in
      let first : CondenseCandidate = record {
        anchor = prefix ++ enc_a;
        anchor_field = spec.ephemeral.a;
        anchor_value = va;
        varying_digest = hasher.encoding_digest enc_b;
        fold_dir = a_to_b;
      } in
      let second : CondenseCandidate = record {
        anchor = prefix ++ enc_b;
        anchor_field = b_name;
        anchor_value = vb;
        varying_digest = hasher.encoding_digest enc_a;
        fold_dir = b_to_a;
      } in
      some (if enc_a ≟ enc_b then first ∷ [] else first ∷ second ∷ [])
