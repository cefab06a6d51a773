-- ===== src/Checksum/Ones.antt =====
-- `checksum` against RFC 1071, which its comment cites.
use hf_ip.Prelude.{List, [], arith, take, ℕ, ◌%◌, ◌*◌, ◌+◌, ◌-◌, ◌<◌, ◌↔◌, ◌∷◌, ◌≡◌}
use hf_ip.Word.{u16, u32}
use hf_ip.Checksum.{checksum, fold, sum_every_16bits, sum_words}
use hf_ip.Checksum.Fold.{fold-eq-ones, fold-lt, ones}

-- The words at an address, summed with no bound.
abbrev pub words_sum : List ℕ → ℕ
words_sum (a ∷ b ∷ rest) = a + b * 256 + words_sum rest
words_sum (a ∷ []) = a
words_sum [] = 0

sum_words-eq : (s : ℕ) (l : List ℕ) → s + words_sum l < 4294967296 → sum_words s l ≡ s + words_sum l
unfolding sum_words
sum_words-eq s (a ∷ b ∷ rest) h =
    omega (arith, sum_words-eq (u32 (s + (a + b * 256))) rest (omega arith))
sum_words-eq s (a ∷ []) h = omega arith
sum_words-eq s [] h = omega arith

complement : (n : ℕ) → n < 4294967296 → u16 (4294967295 - fold 3 n) ≡ 65535 - ones n
complement n h = omega (arith, fold-eq-ones n h, fold-lt n h)

total :
    (s : ℕ) (l : List ℕ)
    → s + words_sum l < 4294967296
    → u32 (u32 s + sum_words 0 l) ≡ s + words_sum l
total s l h = omega (arith, sum_words-eq 0 l (omega arith))

-- If the start value and the words add up below 2^32, `checksum` is the complement of their one's
-- complement sum, for every number of bytes, odd ones included.
pub checksum-eq-ones :
    (addr : List ℕ) (count start : ℕ)
    → start + words_sum (take count addr) < 4294967296
    → checksum addr count start ≡ 65535 - ones (start + words_sum (take count addr))
unfolding checksum sum_every_16bits
checksum-eq-ones addr count start h =
    rw (total start (take count addr) h) (complement (start + words_sum (take count addr)) h)

-- A receiver's test: the checksum of what was received is 0 exactly when the sum is a positive
-- multiple of 65535.
pub checksum-zero :
    (addr : List ℕ) (count : ℕ)
    → words_sum (take count addr) < 4294967296
    → (checksum addr count 0 ≡ 0)
      ↔ ((0 < words_sum (take count addr)) × (words_sum (take count addr) % 65535 ≡ 0))
checksum-zero addr count h = ground (arith, checksum-eq-ones addr count 0)

-- What a sender adds makes the sum such a multiple.
pub ones-complement : (n : ℕ) → (0 < n + (65535 - ones n)) × ((n + (65535 - ones n)) % 65535 ≡ 0)
ones-complement n = ground arith

checksum-lt : (addr : List ℕ) (count start : ℕ) → checksum addr count start < 65536
unfolding checksum
checksum-lt addr count start = omega arith
