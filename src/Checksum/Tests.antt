-- ===== src/Checksum/Tests.antt =====
-- The checksum on concrete bytes.
use hf_ip.Prelude.{List, [], arith, refl, ℕ, ◌+◌, ◌-◌, ◌∷◌, ◌≡◌}
use hf_ip.Checksum.{checksum, fold, sum_every_16bits, sum_words}
use hf_ip.Checksum.Ones.{checksum-eq-ones}
use hf_ip.Checksum.Fold.{ones}

-- The example of RFC 1071: 00 01 f2 03 f4 f5 f6 f7.
abbrev rfc_bytes : List ℕ
rfc_bytes = 0x00 ∷ 0x01 ∷ 0xf2 ∷ 0x03 ∷ 0xf4 ∷ 0xf5 ∷ 0xf6 ∷ 0xf7 ∷ []

-- The complement of dd f2, read as a little-endian word.
rfc_checksum : checksum rfc_bytes 8 0 ≡ 0x0d22
unfolding checksum fold sum_every_16bits sum_words
rfc_checksum = refl

-- An odd number of bytes: the last one is the low byte of a word.
checksum-eq-ones_example : checksum (1 ∷ 2 ∷ 3 ∷ []) 3 7 ≡ 65535 - ones (7 + 516)
checksum-eq-ones_example = checksum-eq-ones (1 ∷ 2 ∷ 3 ∷ []) 3 7 (omega arith)
