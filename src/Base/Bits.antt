-- ===== src/Base/Bits.antt =====
-- The binary digits of masked words.
use Prim.Native.Nat.{min, digits, bit_and, bit_and-bitwise}
use Prim.Native.Nat.{ℕ, zero, suc, ◌+◌, ◌*◌, ◌/◌, ◌%◌, ◌≤◌}
use mathlib.Core.Path.{◌≡◌, refl, ap}
use mathlib.Core.Logic.{◌≢◌}
use native.Mathlib.Omega.{arith}

-- More digits to go than the number has change nothing.
digits-enough :
    (op : ℕ → ℕ → ℕ) (v w r s : ℕ)
    → (v ≤ r) × (v ≤ s)
    → digits (λ u. zero) op r v w ≡ digits (λ u. zero) op s v w
digits-enough op (suc v) w zero s (low, high) = absurd (omega (arith, low))
digits-enough op (suc v) w (suc r) zero (low, high) = absurd (omega (arith, high))
digits-enough op (suc v) w (suc r) (suc s) (low, high) =
    ap (λ (rest : ℕ). rest * 2 + op (suc v % 2) (w % 2))
      (digits-enough op (suc v / 2) (w / 2) r s (omega (arith, low), omega (arith, high)))
digits-enough op zero w (suc r) (suc s) both = refl
digits-enough op zero w (suc r) zero both = refl
digits-enough op zero w zero (suc s) both = refl
digits-enough op zero w zero zero both = refl

-- The lowest digit, and the others.
pub bit_and_lowest : (a b : ℕ) → bit_and a b ≡ bit_and (a / 2) (b / 2) * 2 + min (a % 2) (b % 2)
bit_and_lowest zero b = simp bit_and-bitwise (omega arith)
bit_and_lowest (suc a) b = simp bit_and-bitwise (
    ap (λ (v : ℕ). v * 2 + min (suc a % 2) (b % 2))
      (digits-enough min (suc a / 2) (b / 2) a (suc a / 2) (omega arith, omega arith)))

-- The highest digit of the field of the bits 2 to 6.
pub field_high : (a : ℕ) → bit_and a 0x40 ≢ 0 → 16 ≤ bit_and a 0x7c / 4
field_high a high =
    let a1 = a / 2 in
    let a2 = a1 / 2 in
    let a3 = a2 / 2 in
    let a4 = a3 / 2 in
    let a5 = a4 / 2 in
    let bit : bit_and a 0x40 ≡ bit_and (a5 / 2) 1 * 64 = omega (
      arith,
      bit_and_lowest a 0x40,
      bit_and_lowest a1 0x20,
      bit_and_lowest a2 0x10,
      bit_and_lowest a3 8,
      bit_and_lowest a4 4,
      bit_and_lowest a5 2,
    ) in
    let field : bit_and (a5 / 2) 1 * 64 ≤ bit_and a 0x7c = omega (
      arith,
      bit_and_lowest a 0x7c,
      bit_and_lowest a1 0x3e,
      bit_and_lowest a2 0x1f,
      bit_and_lowest a3 15,
      bit_and_lowest a4 7,
      bit_and_lowest a5 3,
    ) in
    omega arith
