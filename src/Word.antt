-- ===== src/Word.antt =====
-- Fixed-width unsigned words of C, with their wrap-around, and the byte order functions
-- `htons`, `ntohs`, `htonl`, `ntohl` of a little-endian host (include/ip.h says that big-endian
-- hosts are not supported).
use hf_ip.Prelude.{List, [], arith, ℕ, ◌%◌, ◌*◌, ◌+◌, ◌-◌, ◌/◌, ◌<◌, ◌∷◌, ◌≡◌}

abbrev pub u8 : ℕ → ℕ
u8 n = n % 256

abbrev pub u16 : ℕ → ℕ
u16 n = n % 65536

abbrev pub u32 : ℕ → ℕ
u32 n = n % 4294967296

-- `a - b` on uint32_t, for words a and b.
abbrev pub sub32 : ℕ → ℕ → ℕ
sub32 a b = (a + 4294967296 - b) % 4294967296

-- `htons` and `ntohs`.
abbrev pub swap16 : ℕ → ℕ
swap16 x = x % 256 * 256 + x / 256 % 256

-- `htonl` and `ntohl`.
abbrev pub swap32 : ℕ → ℕ
swap32 x = x % 256 * 16777216 + x / 256 % 256 * 65536 + x / 65536 % 256 * 256 + x / 16777216 % 256

pub swap16-swap16 : (x : ℕ) → x < 65536 → swap16 (swap16 x) ≡ x
swap16-swap16 x h = omega arith

pub swap32-swap32 : (x : ℕ) → x < 4294967296 → swap32 (swap32 x) ≡ x
swap32-swap32 x h = omega arith

-- The bytes of a word in memory, lowest first.
abbrev pub bytes16 : ℕ → List ℕ
bytes16 x = x % 256 ∷ x / 256 % 256 ∷ []

abbrev pub bytes32 : ℕ → List ℕ
bytes32 x = x % 256 ∷ x / 256 % 256 ∷ x / 65536 % 256 ∷ x / 16777216 % 256 ∷ []
