-- ===== src/Flows/Key.antt =====
-- Flow-key construction and canonicalization (crates/pktflow-flows/src/key.rs). A key buffer is a
-- list of bytes; `extend_from_slice` is `++` at its end.
pub mod Decoder
pub mod Clip
pub mod Encoding
pub mod Symmetry
pub mod Ends
pub mod Identity
use pktflow.Prelude.{
  ℕ, zero, suc, ◌+◌, ◌-◌, ◌^◌, List, [], ◌∷◌, ◌++◌, Bool, true, false, Option, none, some, length,
  take, min, ltb, ◌==◌, if◌then◌else◌, ◌||◌, ◌&&◌,
}
use pktflow.Prelude.Result.{Result, ok, err, ◌>>=◌, ok_or}
use pktflow.Prelude.Int.{bits64}
use pktflow.Core.Bytes.Endian.{to_be}
use pktflow.Core.Value.{Value, Values, bytes, u64, i64, bool, str, list, nil, cons, FieldMap, get}
use pktflow.Core.Stream.{
  FlowKey, PacketDirection, a_to_b, b_to_a, KeyError, missing_field, KeyField, Canonicalize,
  endpoint_sort, custom, StreamIdentity,
}

abbrev pub KeyBuf : Type 0
KeyBuf = List ℕ

abbrev pub tag_bytes : ℕ
tag_bytes = 0

abbrev pub tag_u64 : ℕ
tag_u64 = 1

abbrev pub tag_i64 : ℕ
tag_i64 = 2

abbrev pub tag_bool : ℕ
tag_bool = 3

abbrev pub tag_str : ℕ
tag_str = 4

abbrev pub tag_list : ℕ
tag_list = 5

-- `u16::try_from(n).unwrap_or(u16::MAX)`
abbrev pub saturate16 : ℕ → ℕ
saturate16 n = min n 65535

-- `encode_len_prefixed`: the tag, the length in two bytes, and at most that many bytes.
unfoldable pub encode_len_prefixed : ℕ → List ℕ → KeyBuf → KeyBuf
encode_len_prefixed tag payload out =
    let len = saturate16 (length payload) in out ++ (tag ∷ []) ++ to_be 2 len ++ take len payload

abbrev pub count : Values → ℕ
count nil = 0
count (cons v vs) = suc (count vs)

abbrev pub bool_byte : Bool → ℕ
bool_byte false = 0
bool_byte true = 1

unfoldable mutual
  unfolding encode_len_prefixed

  -- `encode_value`
  pub encode_value : Value → KeyBuf → KeyBuf
  encode_value (bytes b) out = encode_len_prefixed tag_bytes b out
  encode_value (u64 n) out = out ++ (tag_u64 ∷ []) ++ to_be 8 n
  encode_value (i64 n) out = out ++ (tag_i64 ∷ []) ++ to_be 8 (bits64 n)
  encode_value (bool b) out = out ++ (tag_bool ∷ []) ++ (bool_byte b ∷ [])
  encode_value (str s) out = encode_len_prefixed tag_str s out
  encode_value (list vs) out =
      encode_values vs (saturate16 (count vs))
        (out ++ (tag_list ∷ []) ++ to_be 2 (saturate16 (count vs)))

  -- `for v in vs.iter().take(n)`
  pub encode_values : Values → ℕ → KeyBuf → KeyBuf
  encode_values nil n out = out
  encode_values (cons v vs) n out =
      let more = encode_values vs (n - 1) (encode_value v out) in if n == 0 then out else more

-- The derived order of byte slices, `a <= b`.
unfoldable pub slice_le : List ℕ → List ℕ → Bool
slice_le [] ys = true
slice_le (x ∷ xs) [] = false
slice_le (x ∷ xs) (y ∷ ys) = ltb x y || ((x == y) && slice_le xs ys)

-- The three buffers that the loop over the key's components fills.
pub record Sides : Type 0 where
  pub shared : KeyBuf
  pub side_a : KeyBuf
  pub side_b : KeyBuf

-- One turn of that loop.
unfoldable pub add_component : FieldMap → KeyField → Sides → Result KeyError Sides
add_component fields kf s = do
  va ← ok_or (get fields kf.a) (missing_field kf.a)
  elim kf.b [
    | none ↦ ok (record s { shared = encode_value va s.shared })
    | some b ↦ do
      vb ← ok_or (get fields b) (missing_field b)
      ok (record s { side_a = encode_value va s.side_a; side_b = encode_value vb s.side_b })
  ]

unfoldable pub collect : FieldMap → List KeyField → Sides → Result KeyError Sides
collect fields [] s = ok s
collect fields (kf ∷ kfs) s = do s' ← add_component fields kf s; collect fields kfs s'

-- The direction, and the key: shared components, the smaller side, the larger side.
unfoldable pub canonical : Sides → FlowKey × PacketDirection
canonical s =
    if slice_le s.side_a s.side_b
    then (record { bytes = s.shared ++ s.side_a ++ s.side_b }, a_to_b)
    else (record { bytes = s.shared ++ s.side_b ++ s.side_a }, b_to_a)

abbrev pub no_sides : Sides
no_sides = record { shared = []; side_a = []; side_b = [] }

-- `flow_key`
unfoldable pub flow_key : StreamIdentity → FieldMap → Result KeyError (FlowKey × PacketDirection)
flow_key identity fields = elim identity.canonicalize [
  | custom f ↦ f fields
  | endpoint_sort ↦ (do s ← collect fields identity.key no_sides; ok (canonical s))
]
