-- ===== src/Bitmap/Union.antt =====
-- The bits of a union of two bytes, and of a complement.
use Prim.Native.Nat.{bit_or-bitwise}
use udpcast_rs.Base.{
  ℕ, zero, suc, ◌+◌, ◌*◌, ◌/◌, ◌%◌, ◌^◌, ◌<◌, ◌≡◌, refl, ap, arith, Bool, true, not, ◌||◌, ◌==◌,
  max, holds, holds_at, bit_and, bit_or, half_digits, bit_and_halved, none_in_zero,
}
use udpcast_rs.Bitmap.{complement, test}
use udpcast_rs.Bitmap.Byte.{◌<=>◌, <=>_eq}

zero_bit_or : (b : ℕ) → bit_or 0 b ≡ b
zero_bit_or b = bit_or-bitwise 0 b

bit_or_halved : (a b : ℕ) → bit_or a b ≡ bit_or (a / 2) (b / 2) * 2 + max (a % 2) (b % 2)
bit_or_halved zero b = omega (arith, zero_bit_or b, zero_bit_or (b / 2))
bit_or_halved (suc a) b = omega (
  arith,
  bit_or-bitwise (suc a) b,
  bit_or-bitwise (suc a / 2) (b / 2),
  half_digits (λ b. b) max a (suc a / 2) (suc a / 2) (b / 2) (omega arith) (omega arith),
)

bit_and-zero : (a : ℕ) → bit_and a 0 ≡ 0
bit_and-zero a = none_in_zero a a (omega arith)

test-zero_th : (x : ℕ) → test x 0 ≡ (x % 2 == 1)
unfolding test
test-zero_th x = ground (arith, bit_and_halved x 1, bit_and-zero (x / 2))

test-suc : (x j : ℕ) → test x (suc j) ≡ test (x / 2) j
unfolding test
test-suc x j = ground (arith, bit_and_halved x (2 ^ suc j), half)
  where
    half : bit_and (x / 2) (2 ^ suc j / 2) ≡ bit_and (x / 2) (2 ^ j)
    half = ap (bit_and (x / 2)) (omega arith)

pub test-bit_or : (a b j : ℕ) → test (bit_or a b) j ≡ (test a j || test b j)
test-bit_or a b zero =
    ground (arith, test-zero_th (bit_or a b), test-zero_th a, test-zero_th b, bit_or_halved a b)
test-bit_or a b (suc j) = ground (
  arith,
  test-suc (bit_or a b) j,
  test-suc a j,
  test-suc b j,
  ap (λ (t : ℕ). test t j) (halves),
  test-bit_or (a / 2) (b / 2) j,
)
  where
    halves : bit_or a b / 2 ≡ bit_or (a / 2) (b / 2)
    halves = omega (arith, bit_or_halved a b)

agrees : ℕ → ℕ → Bool
unfolding test
agrees byte j = test (complement byte) j <=> not (test byte j)

complement_table : holds 256 (λ byte. holds 8 (agrees byte)) ≡ true
unfolding holds agrees
complement_table = refl

pub test-complement :
    (byte j : ℕ) → byte < 256 → j < 8 → test (complement byte) j ≡ not (test byte j)
unfolding agrees
test-complement byte j b h = <=>_eq _ _ (
    holds_at 8 (agrees byte) (holds_at 256 (λ byte. holds 8 (agrees byte)) complement_table byte b)
      j h)
