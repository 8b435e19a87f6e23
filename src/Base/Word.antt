-- ===== src/Base/Word.antt =====
-- The 32-bit words of headers/types.h and of the machine: an `int` or `unsigned int` is its bit
-- pattern, a number below 2 ^ 32.
use Prim.Native.Nat.{ℕ, ◌+◌, ◌-◌, ◌/◌, ◌%◌, ◌^◌, bit_and}
use mathlib.Core.Bool.{Bool, not, ◌&&◌}
use multi_pand_os.Base.Tests.{◌==◌, leb, ltb, if◌then◌else◌}

-- The wrapping sum and difference.
abbrev pub add32 : ℕ → ℕ → ℕ
add32 a b = (a + b) % 2 ^ 32

abbrev pub sub32 : ℕ → ℕ → ℕ
sub32 a b = (a + 2 ^ 32 - b) % 2 ^ 32

-- The sign of an `int` read from its bit pattern.
abbrev pub is_negative : ℕ → Bool
is_negative a = leb (2 ^ 31) a

abbrev pub is_positive : ℕ → Bool
is_positive a = ltb 0 a && ltb a (2 ^ 31)

-- `a & mask` used as a condition.
abbrev pub tests_bit : ℕ → ℕ → Bool
tests_bit a mask = not (bit_and a mask == 0)

-- `a < b` on `int`s.
abbrev pub less_int : ℕ → ℕ → Bool
less_int a b = ltb ((a + 2 ^ 31) % 2 ^ 32) ((b + 2 ^ 31) % 2 ^ 32)

-- The quotient, towards 0, of a positive `int` and an `int`.
abbrev pub quotient_int : ℕ → ℕ → ℕ
quotient_int a b = if is_negative b then sub32 0 (a / (2 ^ 32 - b)) else a / b
