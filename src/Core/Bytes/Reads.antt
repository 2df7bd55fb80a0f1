-- ===== src/Core/Bytes/Reads.antt =====
-- What the reads of `ByteReader` (crates/pktflow-core/src/bytes.rs) return and refuse.
use pktflow.Prelude.{
  ℕ, ◌+◌, ◌^◌, ◌≤◌, ◌<◌, ◌≡◌, refl, ap, List, [], ◌∷◌, ◌++◌, length, take as take_list, drop,
  length-take, length-drop, length-append, leb, if◌then◌else◌, arith,
}
use pktflow.Prelude.Result.{ok, err}
use pktflow.Core.Bytes.{ByteReader, remaining, take, array, u16_be, u32_be, u64_be}
use pktflow.Core.Bytes.Endian.{to_be, length-to_be, from_be-to_be}

-- The cursor is inside the input, and the input is shorter than `usize` can count.
pub record IsValid (r : ByteReader) : Type 0 where
  pub inside : r.pos ≤ length r.buf
  pub sized : length r.buf < 2 ^ 64

-- In a valid reader a request of n bytes is granted exactly when n bytes are left. It then returns
-- the n bytes at the cursor and moves the cursor past them; otherwise the error holds the number
-- of bytes wanted and the number of bytes left.
pub take_lem :
    (r : ByteReader) (n : ℕ)
    → IsValid r
    → take r n ≡ (
        if leb n (remaining r)
        then ok (take_list n (drop r.pos r.buf), record r { pos = r.pos + n })
        else err (record { needed = n; have = remaining r }))
unfolding take remaining
take_lem r n v = ground arith

-- A read that succeeds leaves the reader valid, on the same input, n bytes further; so no sequence
-- of reads moves the cursor outside the input.
pub take-IsValid :
    (r : ByteReader) (n : ℕ) (s : List ℕ) (r' : ByteReader)
    → IsValid r
    → take r n ≡ ok (s, r')
    → IsValid r' × (r'.buf ≡ r.buf) × (r'.pos ≡ r.pos + n) × (length s ≡ n)
unfolding take remaining
take-IsValid r n s r' v h =
    ground (arith, length-take n (drop r.pos r.buf), length-drop r.pos r.buf)

pub array_lem :
    (r : ByteReader) (n : ℕ)
    → IsValid r
    → array n r ≡ (
        if leb n (remaining r)
        then ok (take_list n (drop r.pos r.buf), record r { pos = r.pos + n })
        else err (record { needed = n; have = remaining r }))
unfolding array take remaining
array_lem r n v = ground (arith, length-take n (drop r.pos r.buf), length-drop r.pos r.buf)

module _ {ℓ} {A : Type ℓ} where
  pub drop-append : (xs ys : List A) → drop (length xs) (xs ++ ys) ≡ ys
  drop-append [] ys = refl
  drop-append (x ∷ xs) ys = drop-append xs ys

  pub take-append : (xs ys : List A) → take_list (length xs) (xs ++ ys) ≡ xs
  take-append [] ys = refl
  take-append (x ∷ xs) ys = ap (◌∷◌ x) (take-append xs ys)

-- Reading a slice that was written between `before` and `after` finds it.
array-append :
    (before s after : List ℕ)
    → length (before ++ (s ++ after)) < 2 ^ 64
    → array (length s) (record { buf = before ++ (s ++ after); pos = length before })
      ≡ ok (s, record { buf = before ++ (s ++ after); pos = length before + length s })
unfolding array take remaining
array-append before s after h = ground (
  arith,
  length-append before (s ++ after),
  length-append s after,
  drop-append before (s ++ after),
  take-append s after,
)

array-to_be :
    (k : ℕ) (before after : List ℕ) (n : ℕ)
    → length before + k + length after < 2 ^ 64
    → array k (record { buf = before ++ (to_be k n ++ after); pos = length before })
      ≡ ok (to_be k n, record { buf = before ++ (to_be k n ++ after); pos = length before + k })
array-to_be k before after n h = rw length-to_be at (array-append before (to_be k n) after fits)
  where
    fits : length (before ++ (to_be k n ++ after)) < 2 ^ 64
    fits = omega (
      arith,
      length-append before (to_be k n ++ after),
      length-append (to_be k n) after,
      length-to_be k n,
    )

-- An integer written big-endian anywhere in an input of usable size is read back, 16, 32 and 64 bits
-- wide alike, and the cursor stands behind it.
pub read-to_be :
    (before after : List ℕ) (n m k : ℕ)
    → length before + 8 + length after < 2 ^ 64
    → n < 2 ^ 16
    → m < 2 ^ 32
    → k < 2 ^ 64
    → (u16_be (record { buf = before ++ (to_be 2 n ++ after); pos = length before })
        ≡ ok (n, record { buf = before ++ (to_be 2 n ++ after); pos = length before + 2 }))
      × (u32_be (record { buf = before ++ (to_be 4 m ++ after); pos = length before })
          ≡ ok (m, record { buf = before ++ (to_be 4 m ++ after); pos = length before + 4 }))
      × (u64_be (record { buf = before ++ (to_be 8 k ++ after); pos = length before })
          ≡ ok (k, record { buf = before ++ (to_be 8 k ++ after); pos = length before + 8 }))
unfolding u16_be u32_be u64_be
read-to_be before after n m k h hn hm hk = (
  rw (array-to_be 2 before after n (omega arith), from_be-to_be 2 n hn),
  rw (array-to_be 4 before after m (omega arith), from_be-to_be 4 m hm),
  rw (array-to_be 8 before after k h, from_be-to_be 8 k hk),
)
