-- ===== src/Base/Int.antt =====
-- Python's integers that may be negative, and the operations on them that the assembler uses.
-- A negative number is an endless run of ones above its bits, so `& mask` wraps it.
use Prim.Native.Nat.{ℕ, suc, ◌+◌, ◌-◌, ◌*◌, ◌%◌, ◌^◌, ◌/◌, bit_and, bit_or}
use mathlib.Core.Bool.{Bool, false}
use procesador_32_bits.Base.Tests.{leb, if◌then◌else◌}

-- `negsuc n` is -(n + 1).
pub data ℤ : Type 0 where
  pos : ℕ → ℤ
  negsuc : ℕ → ℤ

-- a - b of two numbers.
abbrev pub sub_ℕ : ℕ → ℕ → ℤ
sub_ℕ a b = if leb b a then pos (a - b) else negsuc (b - a - 1)

abbrev pub negate : ℤ → ℤ
negate (pos n) = sub_ℕ 0 n
negate (negsuc n) = pos (suc n)

-- x * 4
abbrev pub times_four : ℤ → ℤ
times_four (pos n) = pos (n * 4)
times_four (negsuc n) = negsuc (n * 4 + 3)

-- n <= x
abbrev pub leb_ℤ : ℕ → ℤ → Bool
leb_ℤ n (pos m) = leb n m
leb_ℤ n (negsuc m) = false

-- x & (2 ** k - 1)
abbrev pub low_bits : ℕ → ℤ → ℕ
low_bits k (pos n) = n % 2 ^ k
low_bits k (negsuc n) = 2 ^ k - 1 - n % 2 ^ k

-- x >> k
abbrev pub shift_right : ℕ → ℤ → ℤ
shift_right k (pos n) = pos (n / 2 ^ k)
shift_right k (negsuc n) = negsuc (n / 2 ^ k)

-- x | m for a mask m that is not negative; ~(~x & ~m) for a negative x.
abbrev pub or_mask : ℤ → ℕ → ℤ
or_mask (pos n) m = pos (bit_or n m)
or_mask (negsuc n) m = negsuc (n - bit_and n m)
