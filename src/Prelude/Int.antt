-- ===== src/Prelude/Int.antt =====
-- C's `int` where its sign is used: a reference count, an error code, a return code.
use Prim.Native.Nat.{ℕ, zero, suc}
use mathlib.Core.Bool.{Bool, true, false}
use hf_ip.Prelude.Tests.{◌==◌}
use mathlib.Core.Path.{◌≡◌, refl}

-- `negsuc n` is -(n + 1).
pub data ℤ : Type 0 where
  pos : ℕ → ℤ
  negsuc : ℕ → ℤ

-- `x++` and `x--`.
abbrev pub inc : ℤ → ℤ
inc (pos n) = pos (suc n)
inc (negsuc zero) = pos 0
inc (negsuc (suc n)) = negsuc n

abbrev pub dec : ℤ → ℤ
dec (pos zero) = negsuc 0
dec (pos (suc n)) = pos n
dec (negsuc n) = negsuc (suc n)

-- `x < 1`
abbrev pub is_below_one : ℤ → Bool
is_below_one (pos zero) = true
is_below_one (pos (suc n)) = false
is_below_one (negsuc n) = true

-- `x == 0`
abbrev pub is_zero : ℤ → Bool
is_zero (pos zero) = true
is_zero (pos (suc n)) = false
is_zero (negsuc n) = false

abbrev pub is_negative : ℤ → Bool
is_negative (pos n) = false
is_negative (negsuc n) = true

-- `x == -1`
abbrev pub is_minus_one : ℤ → Bool
is_minus_one (pos n) = false
is_minus_one (negsuc zero) = true
is_minus_one (negsuc (suc n)) = false

-- `x == y`
abbrev pub int_eq : ℤ → ℤ → Bool
int_eq (pos n) (pos m) = n == m
int_eq (pos n) (negsuc m) = false
int_eq (negsuc n) (pos m) = false
int_eq (negsuc n) (negsuc m) = n == m

-- `-n`
abbrev pub neg : ℕ → ℤ
neg zero = pos 0
neg (suc n) = negsuc n

pub dec-inc : (x : ℤ) → dec (inc x) ≡ x
dec-inc (pos n) = refl
dec-inc (negsuc zero) = refl
dec-inc (negsuc (suc n)) = refl

pub inc-dec : (x : ℤ) → inc (dec x) ≡ x
inc-dec (pos zero) = refl
inc-dec (pos (suc n)) = refl
inc-dec (negsuc n) = refl
