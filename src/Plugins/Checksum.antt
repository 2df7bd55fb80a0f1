-- ===== src/Plugins/Checksum.antt =====
-- The rounds of the checksum (internet_checksum of crates/pktflow-plugins/src/ipv4.rs).
use pktflow.Prelude.{ℕ, ◌+◌, ◌*◌, ◌^◌, ◌<◌, ◌≤◌, List, [], ◌∷◌, arith}
use pktflow.Prelude.Words.{add32}
use pktflow.Plugins.Ip.{sum_words, fold_carries}

sum_words-bounded : (sum : ℕ) (header : List ℕ) → sum < 2 ^ 32 → sum_words sum header < 2 ^ 32
unfolding sum_words
sum_words-bounded sum [] h = h
sum_words-bounded sum (hi ∷ []) h = omega arith
sum_words-bounded sum (hi ∷ lo ∷ rest) h =
    sum_words-bounded (add32 sum (256 * hi + lo)) rest (omega arith)

-- Behind two rounds no carry of a 32-bit sum is left, so the loop has ended.
fold_carries-ends : (sum : ℕ) → sum < 2 ^ 32 → fold_carries 2 sum ≤ 0xFFFF
unfolding fold_carries
fold_carries-ends sum h = ground arith

sum_words-fold_carries : (header : List ℕ) → fold_carries 2 (sum_words 0 header) ≤ 0xFFFF
sum_words-fold_carries header =
    fold_carries-ends (sum_words 0 header) (sum_words-bounded 0 header (omega arith))
