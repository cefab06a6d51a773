-- ===== src/Checksum/Fold.antt =====
-- The folding loop of `checksum` ends, and keeps the sum up to multiples of 65535.
use hf_ip.Prelude.{arith, if◌then◌else◌, suc, zero, ℕ, ◌%◌, ◌+◌, ◌-◌, ◌/◌, ◌<◌, ◌==◌, ◌≡◌}
use hf_ip.Checksum.{fold}

-- The one's complement sum as a number: 0 only for 0, and else from 1 to 65535.
abbrev pub ones : ℕ → ℕ
ones n = if n == 0 then 0 else (n - 1) % 65535 + 1

-- The loop has ended within three rounds: its test, a carry above 16 bits, is false.
pub fold-lt : (s : ℕ) → s < 4294967296 → fold 3 s < 65536
unfolding fold
fold-lt s h = ground arith

fold_step : (s : ℕ) → s < 4294967296 → ones (s % 65536 + s / 65536) ≡ ones s
fold_step s h = ground arith

fold_end : (s : ℕ) → s < 65536 → ones s ≡ s
fold_end s h = ground arith

ones-fold : (r s : ℕ) → s < 4294967296 → ones (fold r s) ≡ ones s
unfolding fold
ones-fold zero s h = ground arith
ones-fold (suc r) s h =
    ground (arith, ones-fold r ((s % 65536 + s / 65536) % 4294967296), fold_step s)

-- The loop computes the one's complement sum.
pub fold-eq-ones : (s : ℕ) → s < 4294967296 → fold 3 s ≡ ones s
fold-eq-ones s h = omega (arith, ones-fold 3 s h, fold-lt s h, fold_end (fold 3 s) (fold-lt s h))
