-- ===== src/Core/Bytes/Endian.antt =====
-- The byte orders of Rust's integers: `to_be_bytes`, `from_be_bytes` and `from_le_bytes`.
use pktflow.Prelude.{
  ℕ, zero, suc, ◌+◌, ◌*◌, ◌/◌, ◌%◌, ◌<◌, ◌≡◌, refl, List, [], ◌∷◌, ◌++◌, length, length-append,
  arith,
}

abbrev pub from_be_acc : ℕ → List ℕ → ℕ
from_be_acc acc [] = acc
from_be_acc acc (b ∷ bs) = from_be_acc (acc * 256 + b) bs

unfoldable pub from_be : List ℕ → ℕ
from_be bytes = from_be_acc 0 bytes

unfoldable pub from_le : List ℕ → ℕ
from_le [] = 0
from_le (b ∷ bs) = b + 256 * from_le bs

-- The k bytes of a k-byte integer, the most significant first.
unfoldable pub to_be : ℕ → ℕ → List ℕ
to_be zero n = []
to_be (suc k) n = to_be k (n / 256) ++ (n % 256) ∷ []

pub length-to_be : (k n : ℕ) → length (to_be k n) ≡ k
unfolding to_be
length-to_be zero n = refl
length-to_be (suc k) n =
    omega (arith, length-append (to_be k (n / 256)) ((n % 256) ∷ []), length-to_be k (n / 256))

from_be_acc-append :
    (acc : ℕ) (xs : List ℕ) (b : ℕ) → from_be_acc acc (xs ++ b ∷ []) ≡ from_be_acc acc xs * 256 + b
from_be_acc-append acc [] b = refl
from_be_acc-append acc (x ∷ xs) b = from_be_acc-append (acc * 256 + x) xs b

-- 256 ^ k, by the recursion that the bytes follow.
abbrev pub width : ℕ → ℕ
width zero = 1
width (suc k) = width k * 256

pub from_be-to_be : (k n : ℕ) → n < width k → from_be (to_be k n) ≡ n
unfolding from_be to_be
from_be-to_be zero n h = omega arith
from_be-to_be (suc k) n h = omega (
  arith,
  from_be_acc-append 0 (to_be k (n / 256)) (n % 256),
  from_be-to_be k (n / 256) (omega arith),
)
