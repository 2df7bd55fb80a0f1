-- ===== src/Flows/Key/Decoder.antt =====
-- A decoder for the value encoding of crates/pktflow-flows/src/key.rs, which its lemmas go by.
use pktflow.Prelude.{
  ℕ, zero, suc, ◌+◌, ◌-◌, ◌^◌, ◌<◌, ◌≡◌, List, [], ◌∷◌, ◌++◌, length, take, drop, ◌==◌,
  if◌then◌else◌, arith,
}
use mathlib.Core.List.{append_assoc, append-nil}
use pktflow.Prelude.Int.{signed64, IsI64}
use pktflow.Core.Bytes.Endian.{to_be, from_be}
use pktflow.Core.Value.{Value, Values, bytes, u64, i64, bool, str, list, nil, cons}
use pktflow.Flows.Key.{
  KeyBuf, encode_len_prefixed, encode_value, encode_values, count, saturate16, tag_list,
}

-- What an encoding writes, apart from the buffer that it is written to.
mutual
  unfolding encode_value encode_len_prefixed

  pub encode_value-append_fix :
      (v : Value) (out : KeyBuf) → encode_value v out ≡ out ++ encode_value v []
  encode_value-append_fix (bytes b) out = simp append_assoc
  encode_value-append_fix (u64 n) out = simp append_assoc
  encode_value-append_fix (i64 n) out = simp append_assoc
  encode_value-append_fix (bool b) out = simp append_assoc
  encode_value-append_fix (str s) out = simp append_assoc
  encode_value-append_fix (list vs) out =
      let n = saturate16 (count vs) in
      let head : KeyBuf = tag_list ∷ to_be 2 n in
      rw (encode_values-append_fix vs n (out ++ (tag_list ∷ []) ++ to_be 2 n))
        (rw (encode_values-append_fix vs n head) (simp append_assoc))

  pub encode_values-append_fix :
      (vs : Values) (n : ℕ) (out : KeyBuf) → encode_values vs n out ≡ out ++ encode_values vs n []
  encode_values-append_fix nil n out = simp append-nil
  encode_values-append_fix (cons v vs) n out = ground (
    arith,
    encode_value-append_fix v out,
    encode_values-append_fix vs (n - 1) (encode_value v out),
    encode_values-append_fix vs (n - 1) (encode_value v []),
    append_assoc out (encode_value v []) (encode_values vs (n - 1) []),
    append-nil out,
  )

-- Integers within the 64 bits of their types, and at most 65535 bytes or items, past which the
-- encoder cuts a payload off.
abbrev pub IsByteLen : ℕ → Type 0
IsByteLen n = n < 65536

abbrev mutual
  pub InRange : Value → Type 0
  InRange (bytes b) = IsByteLen (length b)
  InRange (u64 n) = n < 2 ^ 64
  InRange (i64 n) = IsI64 n
  InRange (bool b) = Unit {0}
  InRange (str s) = IsByteLen (length s)
  InRange (list vs) = IsByteLen (count vs) × AllInRange vs

  pub AllInRange : Values → Type 0
  AllInRange nil = Unit {0}
  AllInRange (cons v vs) = InRange v × AllInRange vs

abbrev Decoder : Type 0
Decoder = List ℕ → Value × List ℕ

unfoldable pub decode_many : Decoder → ℕ → List ℕ → Values × List ℕ
decode_many d zero bs = (nil, bs)
decode_many d (suc n) bs =
    let (v, rest) = d bs in let (vs, after) = decode_many d n rest in (cons v vs, after)

-- The number in the first k bytes, and what follows them.
unfoldable pub number : ℕ → List ℕ → ℕ
number k bs = from_be (take k bs)

unfoldable pub decode_body : Decoder → ℕ → List ℕ → Value × List ℕ
decode_body d tag bs =
    let n = number 2 bs in
    if tag == 0
    then (bytes (take n (drop 2 bs)), drop n (drop 2 bs))
    else if tag == 1
    then (u64 (number 8 bs), drop 8 bs)
    else if tag == 2
    then (i64 (signed64 (number 8 bs)), drop 8 bs)
    else if tag == 3
    then (bool (number 1 bs == 1), drop 1 bs)
    else if tag == 4
    then (str (take n (drop 2 bs)), drop n (drop 2 bs))
    else (let (vs, rest) = decode_many d n (drop 2 bs) in (list vs, rest))

unfoldable pub decode : ℕ → List ℕ → Value × List ℕ
decode zero bs = (list nil, bs)
decode (suc f) [] = (list nil, [])
decode (suc f) (tag ∷ bs) = decode_body (decode f) tag bs

abbrev mutual
  pub depth : Value → ℕ
  depth (bytes b) = 1
  depth (u64 n) = 1
  depth (i64 n) = 1
  depth (bool b) = 1
  depth (str s) = 1
  depth (list vs) = suc (depths vs)

  pub depths : Values → ℕ
  depths nil = 0
  depths (cons v vs) = depth v + depths vs
