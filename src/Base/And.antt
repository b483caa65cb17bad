-- ===== src/Base/And.antt =====
-- The conjunction of binary digits, and one digit of it.
use Prim.Native.Nat.{
  ℕ, zero, suc, ◌+◌, ◌*◌, ◌/◌, ◌%◌, ◌≤◌, min, bit_and, bit_or, bit_and-bitwise, bit_or-bitwise,
}
use mathlib.Core.Path.{◌≡◌, refl}
use native.Mathlib.Omega.{arith}
use udpcast_rs.Base.Xor.{half_digits}

pub bit_and_halved : (a b : ℕ) → bit_and a b ≡ bit_and (a / 2) (b / 2) * 2 + min (a % 2) (b % 2)
bit_and_halved zero b = omega (arith, bit_and-bitwise 0 b, bit_and-bitwise 0 (b / 2))
bit_and_halved (suc a) b = omega (
  arith,
  bit_and-bitwise (suc a) b,
  bit_and-bitwise (suc a / 2) (b / 2),
  half_digits (λ b. zero) min a (suc a / 2) (suc a / 2) (b / 2) (omega arith) (omega arith),
)

pub none_in_zero : (n a : ℕ) → a ≤ n → bit_and a 0 ≡ 0
none_in_zero n zero h = refl
none_in_zero zero (suc a) h = absurd (omega arith)
none_in_zero (suc n) (suc a) h =
    omega (arith, bit_and_halved (suc a) 0, none_in_zero n (suc a / 2) (omega arith))

-- `x & 8`
pub bit_and_eight : (x : ℕ) → bit_and x 8 ≡ x / 8 % 2 * 8
bit_and_eight x = omega (
  arith,
  bit_and_halved x 8,
  bit_and_halved (x / 2) 4,
  bit_and_halved (x / 2 / 2) 2,
  bit_and_halved (x / 2 / 2 / 2) 1,
  none_in_zero (x / 2 / 2 / 2 / 2) (x / 2 / 2 / 2 / 2) (omega arith),
)

-- `8 | x`
pub eight_bit_or : (x : ℕ) → bit_or 8 x / 8 % 2 ≡ 1
eight_bit_or x = omega (arith, bit_or-bitwise 8 x)

-- The fourth digit of a conjunction.
pub eighth-bit_and : (a b : ℕ) → bit_and a b / 8 % 2 ≡ min (a / 8 % 2) (b / 8 % 2)
eighth-bit_and a b = omega (
  arith,
  bit_and_halved a b,
  bit_and_halved (a / 2) (b / 2),
  bit_and_halved (a / 2 / 2) (b / 2 / 2),
  bit_and_halved (a / 2 / 2 / 2) (b / 2 / 2 / 2),
)
