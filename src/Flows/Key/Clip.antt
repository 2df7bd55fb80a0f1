-- ===== src/Flows/Key/Clip.antt =====
-- What the value encoding of crates/pktflow-flows/src/key.rs keeps of a value: texts, byte strings
-- and lists are cut off behind 65535 bytes or items, where their length prefix ends.
use pktflow.Prelude.{
  ℕ, zero, suc, ◌-◌, ◌^◌, ◌≤◌, ◌<◌, ◌≡◌, refl, false, sym, ap, ◌∙◌, List, [], ◌∷◌, ◌++◌, length,
  take, length-take, min, ◌==◌, arith, if◌then◌else◌, Bool-cases, inl, inr,
}
use pktflow.Prelude.Int.{IsI64}
use pktflow.Core.Bytes.Endian.{to_be}
use pktflow.Core.Value.{Value, Values, bytes, u64, i64, bool, str, list, nil, cons}
use pktflow.Flows.Key.{
  KeyBuf, encode_len_prefixed, encode_value, encode_values, count, saturate16, tag_list, tag_bytes,
  tag_str,
}
use pktflow.Flows.Key.Decoder.{InRange, AllInRange}

abbrev mutual
  pub clip : Value → Value
  clip (bytes b) = bytes (take 65535 b)
  clip (u64 n) = u64 n
  clip (i64 n) = i64 n
  clip (bool b) = bool b
  clip (str s) = str (take 65535 s)
  clip (list vs) = list (clip_items 65535 vs)

  pub clip_items : ℕ → Values → Values
  clip_items n nil = nil
  clip_items n (cons v vs) =
      let rest = clip_items (n - 1) vs in if n == 0 then nil else cons (clip v) rest

-- The integers are within the 64 bits of their Rust types.
abbrev mutual
  pub Is64Bit : Value → Type 0
  Is64Bit (bytes b) = Unit {0}
  Is64Bit (u64 n) = n < 2 ^ 64
  Is64Bit (i64 n) = IsI64 n
  Is64Bit (bool b) = Unit {0}
  Is64Bit (str s) = Unit {0}
  Is64Bit (list vs) = All64Bit vs

  pub All64Bit : Values → Type 0
  All64Bit nil = Unit {0}
  All64Bit (cons v vs) = Is64Bit v × All64Bit vs

take-take {ℓ} : {A : Type ℓ} (n m : ℕ) (xs : List A) → n ≤ m → take n (take m xs) ≡ take n xs
take-take zero m xs h = refl
take-take (suc n) zero xs h = absurd (omega arith)
take-take (suc n) (suc m) [] h = refl
take-take (suc n) (suc m) (x ∷ xs) h = ap (◌∷◌ x) (take-take n m xs (omega arith))

count-clip_items : (n : ℕ) (vs : Values) → count (clip_items n vs) ≡ min n (count vs)
count-clip_items n nil = omega arith
count-clip_items n (cons v vs) = ground (arith, count-clip_items (n - 1) vs)

saturate16-length : (b : List ℕ) → saturate16 (length (take 65535 b)) ≡ saturate16 (length b)
saturate16-length b = omega (arith, length-take 65535 b)

encode_len_prefixed-take :
    (tag : ℕ) (b : List ℕ) (out : KeyBuf)
    → encode_len_prefixed tag (take 65535 b) out ≡ encode_len_prefixed tag b out
unfolding encode_len_prefixed
encode_len_prefixed-take tag b out =
    let e : take (saturate16 (length b)) (take 65535 b) ≡ take (saturate16 (length b)) b =
      take-take (saturate16 (length b)) 65535 b (omega arith) in
    rw (saturate16-length b, e) refl

saturate16-count : (vs : Values) → saturate16 (count (clip_items 65535 vs)) ≡ saturate16 (count vs)
saturate16-count vs = omega (arith, count-clip_items 65535 vs)

clip_items_cons :
    (v : Value) (vs : Values) (m : ℕ)
    → clip_items (suc m) (cons v vs) ≡ cons (clip v) (clip_items m vs)
clip_items_cons v vs m =
    let t : (suc m == 0) ≡ false = ground arith in
    let e : suc m - 1 ≡ m = omega arith in rw (t, e) refl

encode_values_cons :
    (v : Value) (vs : Values) (n : ℕ) (out : KeyBuf)
    → encode_values (cons v vs) (suc n) out ≡ encode_values vs n (encode_value v out)
unfolding encode_values
encode_values_cons v vs n out =
    let t : (suc n == 0) ≡ false = ground arith in
    let e : suc n - 1 ≡ n = omega arith in rw (t, e) refl

mutual
  unfolding encode_value

  pub encode_value-clip :
      (v : Value) (out : KeyBuf) → encode_value (clip v) out ≡ encode_value v out
  encode_value-clip (bytes b) out = encode_len_prefixed-take tag_bytes b out
  encode_value-clip (u64 n) out = refl
  encode_value-clip (i64 n) out = refl
  encode_value-clip (bool b) out = refl
  encode_value-clip (str s) out = encode_len_prefixed-take tag_str s out
  encode_value-clip (list vs) out = rw (saturate16-count vs) (
      encode_values-clip_items vs (saturate16 (count vs)) 65535
        (out ++ (tag_list ∷ []) ++ to_be 2 (saturate16 (count vs))) (omega arith))

  encode_values-clip_items :
      (vs : Values) (n m : ℕ) (out : KeyBuf)
      → n ≤ m
      → encode_values (clip_items m vs) n out ≡ encode_values vs n out
  encode_values-clip_items nil n m out h = refl
  encode_values-clip_items (cons v vs) zero zero out h = refl
  encode_values-clip_items (cons v vs) zero (suc m) out h =
      let t : (suc m == 0) ≡ false = ground arith in rw t refl
  encode_values-clip_items (cons v vs) (suc n) zero out h = absurd (omega arith)
  encode_values-clip_items (cons v vs) (suc n) (suc m) out h =
      ap (λ items. encode_values items (suc n) out) (clip_items_cons v vs m)
      ∙ encode_values_cons (clip v) (clip_items m vs) n out
      ∙ ap (encode_values (clip_items m vs) n) (encode_value-clip v out)
      ∙ encode_values-clip_items vs n m (encode_value v out) (omega arith)
      ∙ sym (encode_values_cons v vs n out)

mutual
  pub clip-InRange : (v : Value) → Is64Bit v → InRange (clip v)
  clip-InRange (bytes b) i = omega (arith, length-take 65535 b)
  clip-InRange (u64 n) i = i
  clip-InRange (i64 n) i = i
  clip-InRange (bool b) i = tt
  clip-InRange (str s) i = omega (arith, length-take 65535 s)
  clip-InRange (list vs) i =
      (omega (arith, count-clip_items 65535 vs), clip_items-AllInRange 65535 vs i)

  clip_items-AllInRange : (n : ℕ) (vs : Values) → All64Bit vs → AllInRange (clip_items n vs)
  clip_items-AllInRange n nil i = tt
  clip_items-AllInRange n (cons v vs) (i, is) = elim (Bool-cases (n == 0)) [
    | inl e ↦ rw e tt
    | inr e ↦ rw e (clip-InRange v i, clip_items-AllInRange (n - 1) vs is)
  ]

take_short {ℓ} : {A : Type ℓ} (n : ℕ) (xs : List A) → length xs ≤ n → take n xs ≡ xs
take_short zero [] h = refl
take_short zero (x ∷ xs) h = absurd (omega arith)
take_short (suc n) [] h = refl
take_short (suc n) (x ∷ xs) h = ap (◌∷◌ x) (take_short n xs (omega arith))

mutual
  -- A value with all lengths below 65536 loses nothing.
  clip_short : (v : Value) → InRange v → clip v ≡ v
  clip_short (bytes b) i = ap bytes (take_short 65535 b (omega arith))
  clip_short (u64 n) i = refl
  clip_short (i64 n) i = refl
  clip_short (bool b) i = refl
  clip_short (str s) i = ap str (take_short 65535 s (omega arith))
  clip_short (list vs) i = ap list (clip_items_short vs 65535 (omega (arith, i.0)) i.1)

  clip_items_short : (vs : Values) (n : ℕ) → count vs ≤ n → AllInRange vs → clip_items n vs ≡ vs
  clip_items_short nil n h i = refl
  clip_items_short (cons v vs) zero h i = absurd (omega arith)
  clip_items_short (cons v vs) (suc n) h i =
      clip_items_cons v vs n
      ∙ ap (λ w. cons w (clip_items n vs)) (clip_short v i.0)
      ∙ ap (cons v) (clip_items_short vs n (omega arith) i.1)
