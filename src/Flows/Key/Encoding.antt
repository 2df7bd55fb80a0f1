-- ===== src/Flows/Key/Encoding.antt =====
-- The value encoding of crates/pktflow-flows/src/key.rs loses nothing but what it cuts off: it has a
-- decoder.
use pktflow.Prelude.{
  ℕ, zero, suc, ◌+◌, ◌-◌, ◌^◌, ◌≤◌, ◌<◌, ◌≡◌, refl, sym, ap, ◌∙◌, List, [], ◌∷◌, ◌++◌, true, false,
  length, take, drop, ◌==◌, arith,
}
use mathlib.Core.List.{append_assoc, append-nil}
use pktflow.Prelude.Int.{bits64, signed64-bits64, bits64-lt}
use pktflow.Core.Bytes.Endian.{to_be, from_be, length-to_be, from_be-to_be}
use pktflow.Core.Bytes.Reads.{take-append, drop-append}
use pktflow.Core.Value.{Value, Values, bytes, u64, i64, bool, str, list, nil, cons}
use pktflow.Flows.Key.{
  KeyBuf, encode_len_prefixed, encode_value, encode_values, count, saturate16, tag_list,
}
use pktflow.Flows.Key.Clip.{clip, Is64Bit, encode_value-clip, clip-InRange}
use pktflow.Flows.Key.Decoder.{
  encode_value-append_fix, encode_values-append_fix, IsByteLen, InRange, AllInRange, decode_many,
  number, decode_body, decode, depth, depths,
}

take-to_be : (k n : ℕ) (r : List ℕ) → take k (to_be k n ++ r) ≡ to_be k n
take-to_be k n r = rw length-to_be at (take-append (to_be k n) r)

drop-to_be : (k n : ℕ) (r : List ℕ) → drop k (to_be k n ++ r) ≡ r
drop-to_be k n r = rw length-to_be at (drop-append (to_be k n) r)

number-to_be2 : (n : ℕ) (r : List ℕ) → n < 65536 → number 2 (to_be 2 n ++ r) ≡ n
unfolding number
number-to_be2 n r h = rw take-to_be (from_be-to_be 2 n h)

number-to_be8 : (n : ℕ) (r : List ℕ) → n < 2 ^ 64 → number 8 (to_be 8 n ++ r) ≡ n
unfolding number
number-to_be8 n r h = rw take-to_be (from_be-to_be 8 n h)

take_all {ℓ} : {A : Type ℓ} (xs : List A) → take (length xs) xs ≡ xs
take_all [] = refl
take_all (x ∷ xs) = ap (◌∷◌ x) (take_all xs)

saturate16_lem : (n : ℕ) → IsByteLen n → saturate16 n ≡ n
saturate16_lem n h = omega arith

encode_values_head :
    (vs : Values) (n : ℕ) (r : List ℕ)
    → encode_values vs n (tag_list ∷ to_be 2 n) ++ r
      ≡ tag_list ∷ (to_be 2 n ++ (encode_values vs n [] ++ r))
encode_values_head vs n r = rw encode_values-append_fix (simp append_assoc)

encode_values_cons :
    (v : Value) (vs : Values) (n : ℕ) (r : List ℕ)
    → encode_values (cons v vs) (suc n) [] ++ r ≡ encode_value v [] ++ (encode_values vs n [] ++ r)
unfolding encode_values
encode_values_cons v vs n r =
    let e : suc n - 1 ≡ n = omega arith in
    let t : (suc n == 0) ≡ false = ground arith in
    rw (t, e) (rw (encode_values-append_fix vs n (encode_value v [])) (simp append_assoc))

decode_list :
    (f : ℕ) (vs : Values) (r : List ℕ)
    → IsByteLen (count vs)
    → decode_many (decode f) (count vs) (encode_values vs (count vs) [] ++ r) ≡ (vs, r)
    → decode (suc f) (encode_value (list vs) [] ++ r) ≡ (list vs, r)
unfolding decode decode_body encode_value
decode_list f vs r i e = rw (saturate16_lem (count vs) i) (
    rw encode_values_head (
      rw (number-to_be2 (count vs) (encode_values vs (count vs) [] ++ r) i) (rw drop-to_be (rw e))))

decode_cons :
    (f : ℕ) (v : Value) (vs : Values) (r : List ℕ)
    → decode f (encode_value v [] ++ (encode_values vs (count vs) [] ++ r))
      ≡ (v, encode_values vs (count vs) [] ++ r)
    → decode_many (decode f) (count vs) (encode_values vs (count vs) [] ++ r) ≡ (vs, r)
    → decode_many (decode f) (suc (count vs)) (encode_values (cons v vs) (suc (count vs)) [] ++ r)
      ≡ (cons v vs, r)
unfolding decode_many
decode_cons f v vs r h t = rw encode_values_cons (rw h (rw t))

mutual
  unfolding decode decode_body decode_many encode_value encode_len_prefixed number from_be

  decode-encode_value :
      (v : Value) (f : ℕ) (r : List ℕ)
      → depth v ≤ f
      → InRange v
      → decode f (encode_value v [] ++ r) ≡ (v, r)
  decode-encode_value (bytes b) zero r d i = absurd (omega arith)
  decode-encode_value (bytes b) (suc f) r d i = simp (
    saturate16_lem (length b) i,
    take_all,
    append_assoc,
    number-to_be2 (length b) (b ++ r) i,
    drop-to_be,
    take-append,
    drop-append,
  )
  decode-encode_value (u64 n) zero r d i = absurd (omega arith)
  decode-encode_value (u64 n) (suc f) r d i = simp (number-to_be8 n r i, drop-to_be)
  decode-encode_value (i64 n) zero r d i = absurd (omega arith)
  decode-encode_value (i64 n) (suc f) r d i =
      simp (number-to_be8 (bits64 n) r (bits64-lt n i), drop-to_be, signed64-bits64 n i)
  decode-encode_value (bool b) zero r d i = absurd (omega arith)
  decode-encode_value (bool false) (suc f) r d i = refl
  decode-encode_value (bool true) (suc f) r d i = refl
  decode-encode_value (str s) zero r d i = absurd (omega arith)
  decode-encode_value (str s) (suc f) r d i = simp (
    saturate16_lem (length s) i,
    take_all,
    append_assoc,
    number-to_be2 (length s) (s ++ r) i,
    drop-to_be,
    take-append,
    drop-append,
  )
  decode-encode_value (list vs) zero r d i = absurd (omega arith)
  decode-encode_value (list vs) (suc f) r d i =
      decode_list f vs r i.0 (decode-encode_values vs f r (omega arith) i.1)

  decode-encode_values :
      (vs : Values) (f : ℕ) (r : List ℕ)
      → depths vs ≤ f
      → AllInRange vs
      → decode_many (decode f) (count vs) (encode_values vs (count vs) [] ++ r) ≡ (vs, r)
  decode-encode_values nil f r d i = refl
  decode-encode_values (cons v vs) f r d i =
      decode_cons f v vs r
        (decode-encode_value v f (encode_values vs (count vs) [] ++ r) (omega arith) i.0)
        (decode-encode_values vs f r (omega arith) i.1)

decoded_same :
    (v w : Value) (r s : List ℕ)
    → InRange v
    → InRange w
    → encode_value v [] ++ r ≡ encode_value w [] ++ s
    → (v ≡ w) × (r ≡ s)
decoded_same v w r s i j e = (ap (λ p. p.0) same, ap (λ p. p.1) same)
  where
    fuel : ℕ
    fuel = depth v + depth w

    same : ◌≡◌ {A = Value × List ℕ} (v, r) (w, s)
    same =
        sym (decode-encode_value v fuel r (omega arith) i)
        ∙ ap (decode fuel) e
        ∙ decode-encode_value w fuel s (omega arith) j

-- The encoding of a value is that of the value cut off at 65535 bytes or items, in it and in the
-- lists it holds, and loses no more than that: where the integers are within 64 bits, two encodings
-- that agree up to what follows them are of values that are equal when so cut off, followed by the
-- same. So no encoding is a proper prefix of another, and values of different types never share one.
pub encode_value-injective :
    (v w : Value) (r s : List ℕ)
    → Is64Bit v
    → Is64Bit w
    → encode_value v [] ++ r ≡ encode_value w [] ++ s
    → (encode_value v [] ≡ encode_value (clip v) []) × (clip v ≡ clip w) × (r ≡ s)
encode_value-injective v w r s i j e =
    let clipped : encode_value (clip v) [] ++ r ≡ encode_value (clip w) [] ++ s =
      rw (encode_value-clip v [], encode_value-clip w []) e in
    let (same, rest) =
      decoded_same (clip v) (clip w) r s (clip-InRange v i) (clip-InRange w j) clipped in
    (sym (encode_value-clip v []), same, rest)

-- The values of one side of a key, one after the other.
abbrev pub encode_all : List Value → KeyBuf
encode_all [] = []
encode_all (v ∷ vs) = encode_value v [] ++ encode_all vs

abbrev pub EachInRange : List Value → Type 0
EachInRange [] = Unit {0}
EachInRange (v ∷ vs) = InRange v × EachInRange vs

pub encode_all-injective :
    (vs ws : List Value) (r s : List ℕ)
    → EachInRange vs
    → EachInRange ws
    → length vs ≡ length ws
    → encode_all vs ++ r ≡ encode_all ws ++ s
    → (vs ≡ ws) × (r ≡ s)
encode_all-injective [] [] r s i j l e = (refl, e)
encode_all-injective [] (w ∷ ws) r s i j l e = absurd (omega arith)
encode_all-injective (v ∷ vs) [] r s i j l e = absurd (omega arith)
encode_all-injective (v ∷ vs) (w ∷ ws) r s i j l e =
    let head : (v ≡ w) × (encode_all vs ++ r ≡ encode_all ws ++ s) =
      decoded_same v w (encode_all vs ++ r) (encode_all ws ++ s) i.0 j.0 (simp append_assoc at e) in
    let tails : (vs ≡ ws) × (r ≡ s) = encode_all-injective vs ws r s i.1 j.1 (omega arith) head.1 in
    (cc (head.0, tails.0), tails.1)

pub encode_all-append :
    (vs : List Value) (v : Value) → encode_all (vs ++ v ∷ []) ≡ encode_value v (encode_all vs)
encode_all-append [] v = append-nil (encode_value v [])
encode_all-append (w ∷ vs) v = rw (encode_all-append vs v) (
    rw (encode_value-append_fix v (encode_all vs))
      (rw (encode_value-append_fix v (encode_all (w ∷ vs))) (simp append_assoc)))

-- The values of one side, each as far as its encoding keeps it.
abbrev pub clip_all : List Value → List Value
clip_all [] = []
clip_all (v ∷ vs) = clip v ∷ clip_all vs

abbrev pub Each64Bit : List Value → Type 0
Each64Bit [] = Unit {0}
Each64Bit (v ∷ vs) = Is64Bit v × Each64Bit vs

pub encode_all-clip_all : (vs : List Value) → encode_all (clip_all vs) ≡ encode_all vs
encode_all-clip_all [] = refl
encode_all-clip_all (v ∷ vs) = rw (encode_value-clip v [], encode_all-clip_all vs) refl

pub clip_all-EachInRange : (vs : List Value) → Each64Bit vs → EachInRange (clip_all vs)
clip_all-EachInRange [] i = tt
clip_all-EachInRange (v ∷ vs) (i, is) = (clip-InRange v i, clip_all-EachInRange vs is)

pub length-clip_all : (vs : List Value) → length (clip_all vs) ≡ length vs
length-clip_all [] = refl
length-clip_all (v ∷ vs) = ap suc (length-clip_all vs)
