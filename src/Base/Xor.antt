-- ===== src/Base/Xor.antt =====
-- Laws of the exclusive or, digit by digit.
use Prim.Native.Nat.{
  ℕ, zero, suc, ◌+◌, ◌*◌, ◌/◌, ◌%◌, ◌^◌, ◌≤◌, ◌<◌, bit_xor, digits, differ, bit_xor-bitwise,
}
use mathlib.Core.Path.{◌≡◌, refl, sym, ap, ◌∙◌}
use native.Mathlib.Omega.{arith}

pub zero-bit_xor : (b : ℕ) → bit_xor 0 b ≡ b
zero-bit_xor b = bit_xor-bitwise 0 b

-- The count of digits to go does not matter if there are enough.
module _ (z : ℕ → ℕ) (f : ℕ → ℕ → ℕ) where
  pub half_digits : (n m a b : ℕ) → a ≤ n → a ≤ m → digits z f n a b ≡ digits z f m a b
  half_digits zero zero a b p q = refl
  half_digits zero (suc m) zero b p q = refl
  half_digits zero (suc m) (suc a) b p q = absurd (omega arith)
  half_digits (suc n) zero zero b p q = refl
  half_digits (suc n) zero (suc a) b p q = absurd (omega arith)
  half_digits (suc n) (suc m) zero b p q = refl
  half_digits (suc n) (suc m) (suc a) b p q =
      omega (arith, half_digits n m (suc a / 2) (b / 2) (omega arith) (omega arith))

differ_bit : (a b : ℕ) → a < 2 → b < 2 → differ a b ≡ (a + b) % 2
differ_bit zero b p q = omega arith
differ_bit (suc zero) zero p q = refl
differ_bit (suc zero) (suc zero) p q = refl
differ_bit (suc zero) (suc (suc b)) p q = absurd (omega arith)
differ_bit (suc (suc a)) b p q = absurd (omega arith)

bit_xor_step : (a b : ℕ) → bit_xor a b ≡ bit_xor (a / 2) (b / 2) * 2 + (a + b) % 2
bit_xor_step zero b = omega (arith, zero-bit_xor b, zero-bit_xor (b / 2))
bit_xor_step (suc a) b = omega (
  arith,
  bit_xor-bitwise (suc a) b,
  bit_xor-bitwise (suc a / 2) (b / 2),
  half_digits (λ b. b) differ a (suc a / 2) (suc a / 2) (b / 2) (omega arith) (omega arith),
  differ_bit (suc a % 2) (b % 2) (omega arith) (omega arith),
)

half-bit_xor : (a b : ℕ) → bit_xor a b / 2 ≡ bit_xor (a / 2) (b / 2)
half-bit_xor a b = omega (arith, bit_xor_step a b)

low-bit_xor : (a b : ℕ) → bit_xor a b % 2 ≡ (a + b) % 2
low-bit_xor a b = omega (arith, bit_xor_step a b)

-- The laws up to a bound on the first number, which is halved at each step.
below_assoc : (n a b c : ℕ) → a ≤ n → bit_xor (bit_xor a b) c ≡ bit_xor a (bit_xor b c)
below_assoc n zero b c p =
    ap (λ (k : ℕ). bit_xor k c) (zero-bit_xor b) ∙ sym (zero-bit_xor (bit_xor b c))
below_assoc zero (suc a) b c p = absurd (omega arith)
below_assoc (suc n) (suc a) b c p = omega (
  arith,
  bit_xor_step (bit_xor (suc a) b) c,
  bit_xor_step (suc a) (bit_xor b c),
  low-bit_xor (suc a) b,
  low-bit_xor b c,
  ap (λ (k : ℕ). bit_xor k (c / 2)) (half-bit_xor (suc a) b),
  ap (λ (k : ℕ). bit_xor (suc a / 2) k) (half-bit_xor b c),
  below_assoc n (suc a / 2) (b / 2) (c / 2) (omega arith),
)

pub bit_xor_assoc : (a b c : ℕ) → bit_xor (bit_xor a b) c ≡ bit_xor a (bit_xor b c)
bit_xor_assoc a b c = below_assoc a a b c (omega arith)

pub bit_xor-zero : (a : ℕ) → bit_xor a 0 ≡ a
bit_xor-zero a = below_zero a a (omega arith)
  where
    below_zero : (n a : ℕ) → a ≤ n → bit_xor a 0 ≡ a
    below_zero n zero p = refl
    below_zero zero (suc a) p = absurd (omega arith)
    below_zero (suc n) (suc a) p =
        omega (arith, bit_xor_step (suc a) 0, below_zero n (suc a / 2) (omega arith))

below_comm : (n a b : ℕ) → a ≤ n → bit_xor a b ≡ bit_xor b a
below_comm n zero b p = zero-bit_xor b ∙ sym (bit_xor-zero b)
below_comm zero (suc a) b p = absurd (omega arith)
below_comm (suc n) (suc a) b p = omega (
  arith,
  bit_xor_step (suc a) b,
  bit_xor_step b (suc a),
  below_comm n (suc a / 2) (b / 2) (omega arith),
)

pub bit_xor_comm : (a b : ℕ) → bit_xor a b ≡ bit_xor b a
bit_xor_comm a b = below_comm a a b (omega arith)

pub bit_xor_self : (a : ℕ) → bit_xor a a ≡ 0
bit_xor_self a = below_self a a (omega arith)
  where
    below_self : (n a : ℕ) → a ≤ n → bit_xor a a ≡ 0
    below_self n zero p = refl
    below_self zero (suc a) p = absurd (omega arith)
    below_self (suc n) (suc a) p =
        omega (arith, bit_xor_step (suc a) (suc a), below_self n (suc a / 2) (omega arith))

pub bit_xor-lt : (n a b : ℕ) → a < 2 ^ n → b < 2 ^ n → bit_xor a b < 2 ^ n
bit_xor-lt zero zero zero p q = omega arith
bit_xor-lt zero (suc a) b p q = absurd (omega arith)
bit_xor-lt zero zero (suc b) p q = absurd (omega arith)
bit_xor-lt (suc n) a b p q =
    omega (arith, bit_xor_step a b, bit_xor-lt n (a / 2) (b / 2) (omega arith) (omega arith))

-- A number is its lowest digit and the others.
pub low_bit_xor : (x : ℕ) → x ≡ bit_xor (x % 2) (x / 2 * 2)
low_bit_xor x = omega (
  arith,
  bit_xor_step (x % 2) (x / 2 * 2),
  ap (λ (t : ℕ). bit_xor t (x / 2 * 2 / 2)) zero_half,
  zero-bit_xor (x / 2 * 2 / 2),
)
  where
    zero_half : x % 2 / 2 ≡ 0
    zero_half = omega arith
