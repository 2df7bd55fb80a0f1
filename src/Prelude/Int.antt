-- ===== src/Prelude/Int.antt =====
-- Signed machine integers. `negsuc n` is -(n + 1).
use Prim.Native.Nat.{ℕ, ◌-◌, ◌^◌, ◌<◌}
use mathlib.Core.Path.{◌≡◌}
use native.Mathlib.Omega.{arith}
use pktflow.Prelude.Tests.{ltb, if◌then◌else◌}

pub data ℤ : Type 0 where
  pos : ℕ → ℤ
  negsuc : ℕ → ℤ

-- The i32 and the i64 of a bit pattern, and the bit pattern of an i64.
abbrev pub signed32 : ℕ → ℤ
signed32 x = if ltb x (2 ^ 31) then pos x else negsuc (2 ^ 32 - 1 - x)

abbrev pub signed64 : ℕ → ℤ
signed64 x = if ltb x (2 ^ 63) then pos x else negsuc (2 ^ 64 - 1 - x)

abbrev pub bits64 : ℤ → ℕ
bits64 (pos n) = n
bits64 (negsuc n) = 2 ^ 64 - 1 - n

abbrev pub IsI64 : ℤ → Type 0
IsI64 (pos n) = n < 2 ^ 63
IsI64 (negsuc n) = n < 2 ^ 63

pub signed64-bits64 : (z : ℤ) → IsI64 z → signed64 (bits64 z) ≡ z
signed64-bits64 (pos n) h = ground arith
signed64-bits64 (negsuc n) h = ground arith

pub bits64-lt : (z : ℤ) → IsI64 z → bits64 z < 2 ^ 64
bits64-lt (pos n) h = omega arith
bits64-lt (negsuc n) h = omega arith
