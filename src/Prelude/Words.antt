-- ===== src/Prelude/Words.antt =====
-- Machine words as native numbers, with their wrap-around written out.
use Prim.Native.Nat.{ℕ, suc, ◌+◌, ◌-◌, ◌*◌, ◌/◌, ◌%◌, ◌^◌}
use mathlib.Core.Bool.{Bool}
use order_matching_machine.Prelude.Tests.{ltb, ◌==◌, if◌then◌else◌}
use order_matching_machine.Prelude.Int.{ℤ, pos, negsuc, pos_part, neg_part}

abbrev pub u8_mod : ℕ
u8_mod = 2 ^ 8

abbrev pub u32_mod : ℕ
u32_mod = 2 ^ 32

abbrev pub u64_mod : ℕ
u64_mod = 2 ^ 64

-- `a + b` and `a - b` on `uint64_t`; `-` on ℕ stops at 0, so the modulus comes first.
abbrev pub add64 : ℕ → ℕ → ℕ
add64 a b = (a + b) % 2 ^ 64

abbrev pub sub64 : ℕ → ℕ → ℕ
sub64 a b = (a + 2 ^ 64 - b % 2 ^ 64) % 2 ^ 64

-- `a - b` on `uint32_t`.
abbrev pub sub32 : ℕ → ℕ → ℕ
sub32 a b = (a + 2 ^ 32 - b % 2 ^ 32) % 2 ^ 32

-- `int64_t` to `uint64_t`: two's complement.
abbrev pub bits_of : ℤ → ℕ
bits_of (pos n) = n
bits_of (negsuc n) = 2 ^ 64 - suc n

-- The 64-bit pattern of any integer, and the `int64_t` of a pattern.
abbrev pub word_of : ℤ → ℕ
word_of (pos n) = n % 2 ^ 64
word_of (negsuc n) = 2 ^ 64 - suc (n % 2 ^ 64)

abbrev pub i64_of : ℕ → ℤ
i64_of w = if ltb w (2 ^ 63) then pos w else negsuc (2 ^ 64 - suc w)

-- Signed 64-bit arithmetic, with the wrap-around that two's complement has. The language leaves a
-- signed overflow undefined.
abbrev pub add_i64 : ℤ → ℤ → ℤ
add_i64 a b = i64_of ((word_of a + word_of b) % 2 ^ 64)

abbrev pub sub_i64 : ℤ → ℤ → ℤ
sub_i64 a b = i64_of ((word_of a + 2 ^ 64 - word_of b) % 2 ^ 64)

abbrev pub mul_i64 : ℤ → ℤ → ℤ
mul_i64 a b = i64_of (word_of a * word_of b % 2 ^ 64)

-- `a / 2`, which rounds towards zero.
abbrev pub half_i64 : ℤ → ℤ
half_i64 (pos n) = pos (n / 2)
half_i64 (negsuc n) = if suc n / 2 == 0 then pos 0 else negsuc (suc n / 2 - 1)

-- `a % b == 0`, on signed operands.
abbrev pub divides_i64 : ℤ → ℤ → Bool
divides_i64 b a = (pos_part a + neg_part a) % (pos_part b + neg_part b) == 0
