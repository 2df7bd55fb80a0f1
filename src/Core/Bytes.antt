-- ===== src/Core/Bytes.antt =====
-- Checked byte access (crates/pktflow-core/src/bytes.rs): `ByteReader` and its reads. A read returns
-- the value beside the advanced reader; on an error the caller keeps the reader that it has.
-- A byte is a number, below 256 where a lemma needs it.
pub mod Endian
pub mod Reads
use pktflow.Prelude.{
  ℕ, ◌+◌, ◌-◌, ◌^◌, ◌==◌, List, length, take as take_list, drop, leb, ltb, if◌then◌else◌,
}
use pktflow.Prelude.Result.{Result, ok, err, ◌>>=◌}
use pktflow.Prelude.Int.{ℤ, signed32}
use Endian.{from_be, from_le}

pub record Truncated : Type 0 where
  pub needed : ℕ
  pub have : ℕ

pub record ByteReader : Type 0 where
  pub buf : List ℕ
  pub pos : ℕ

abbrev pub Read : Type 0 → Type 0
Read A = Result Truncated (A × ByteReader)

unfoldable pub new : List ℕ → ByteReader
new buf = record { buf = buf; pos = 0 }

unfoldable pub remaining : ByteReader → ℕ
remaining r = length r.buf - r.pos

-- `pos.checked_add(n)` fails from 2^64 on, and `buf.get(pos..end)` fails past the end.
unfoldable pub take : ByteReader → ℕ → Read (List ℕ)
unfolding remaining
take r n =
    let end : ℕ = r.pos + n in
    if leb (2 ^ 64) end
    then err (record { needed = n; have = remaining r })
    else if ltb (length r.buf) end
    then err (record { needed = n; have = remaining r })
    else ok (take_list n (drop r.pos r.buf), record r { pos = end })

-- `[u8; N]`: a slice of another length than N is refused like a short input.
unfoldable pub array : ℕ → ByteReader → Read (List ℕ)
unfolding take remaining
array n r = do
  (slice, r') ← take r n
  if length slice == n then ok (slice, r') else err (record { needed = n; have = remaining r })

unfoldable pub u8 : ByteReader → Read ℕ
u8 r = do (b, r') ← array 1 r; ok (from_be b, r')

unfoldable pub u16_be : ByteReader → Read ℕ
u16_be r = do (b, r') ← array 2 r; ok (from_be b, r')

unfoldable pub u16_le : ByteReader → Read ℕ
u16_le r = do (b, r') ← array 2 r; ok (from_le b, r')

unfoldable pub u32_be : ByteReader → Read ℕ
u32_be r = do (b, r') ← array 4 r; ok (from_be b, r')

unfoldable pub u32_le : ByteReader → Read ℕ
u32_le r = do (b, r') ← array 4 r; ok (from_le b, r')

unfoldable pub u64_be : ByteReader → Read ℕ
u64_be r = do (b, r') ← array 8 r; ok (from_be b, r')

unfoldable pub u64_le : ByteReader → Read ℕ
u64_le r = do (b, r') ← array 8 r; ok (from_le b, r')

unfoldable pub i32_be : ByteReader → Read ℤ
i32_be r = do (b, r') ← array 4 r; ok (signed32 (from_be b), r')
