-- ===== src/Checksum.antt =====
-- src/utils.c: the checksum, `min`, and what is made of the addresses that the C library reads. The
-- children compare the checksum with the one's complement sum of RFC 1071.
pub mod Fold
pub mod Ones
mod Tests
use hf_ip.Prelude.{
  List, Option, [], bit_or, if◌then◌else◌, ltb, none, some, suc, take, zero, ℕ, ◌%◌, ◌*◌, ◌+◌, ◌-◌,
  ◌/◌, ◌==◌, ◌^◌, ◌∷◌,
}
use hf_ip.Prelude.Int.{is_zero, ℤ}
use hf_ip.Word.{u16, u32}

-- The loop of `sum_every_16bits`: the list holds the `count` bytes at `ptr`, and a uint16_t is
-- read lowest byte first.
unfoldable pub sum_words : ℕ → List ℕ → ℕ
sum_words sum (a ∷ b ∷ rest) = sum_words (u32 (sum + (a + b * 256))) rest
sum_words sum (a ∷ []) = u32 (sum + a)
sum_words sum [] = sum

unfoldable pub sum_every_16bits : List ℕ → ℕ → ℕ
sum_every_16bits addr count = sum_words 0 (take count addr)

-- `while (sum>>16) sum = (sum & 0xffff) + (sum >> 16);` with the rounds allowed.
unfoldable pub fold : ℕ → ℕ → ℕ
fold zero sum = sum
fold (suc rounds) sum =
    let next = fold rounds (u32 (sum % 65536 + sum / 65536)) in
    if sum / 65536 == 0 then sum else next

-- Three rounds are enough for a uint32_t (`Fold.fold-lt`). `~sum` is cut to a uint16_t.
unfoldable pub checksum : List ℕ → ℕ → ℕ → ℕ
checksum addr count start_sum =
    let sum = fold 3 (u32 (u32 start_sum + sum_every_16bits addr count)) in u16 (4294967295 - sum)

unfoldable pub c_min : ℕ → ℕ → ℕ
c_min x y = if ltb y x then y else x

-- `parse_ipv4_string` of the four numbers that `sscanf` reads, the first one of the text first.
abbrev pub parse_ipv4_string : ℕ → ℕ → ℕ → ℕ → ℕ
parse_ipv4_string a b c d = bit_or (bit_or (bit_or d (c * 2 ^ 8)) (b * 2 ^ 16)) (a * 2 ^ 24)

-- `get_address` for what `getaddrinfo` returns and lists: `none` is `exit`, and the rest is the result
-- and the memory for the address.
unfoldable get_address {ℓ} : {A : Type ℓ} → ℤ → List A → A → Option (ℕ × A)
get_address s [] addr = if is_zero s then some (1, addr) else none
get_address s (rp ∷ result) addr = if is_zero s then some (0, rp) else none
