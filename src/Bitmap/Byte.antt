-- ===== src/Bitmap/Byte.antt =====
-- One byte: setting and clearing a bit, checked at every value.
use udpcast_rs.Base.{
  ℕ, ◌<◌, ◌≡◌, refl, arith, Bool, true, not, ◌&&◌, ◌||◌, ◌==◌, ltb, holds, holds_at, bit_and,
  bit_or, if◌then◌else◌,
}
use udpcast_rs.Bitmap.{mask, complement, test}

infix 50 ◌<=>◌
abbrev pub ◌<=>◌ : Bool → Bool → Bool
a <=> b = if a then b else not b

pub <=>_eq : (a b : Bool) → (a <=> b) ≡ true → a ≡ b
<=>_eq a b h = ground arith

set_agrees : ℕ → ℕ → ℕ → Bool
unfolding test
set_agrees byte i j = test (bit_or byte (mask i)) j <=> (i == j || test byte j)

clear_agrees : ℕ → ℕ → ℕ → Bool
unfolding test
clear_agrees byte i j =
    test (bit_and byte (complement (mask i))) j <=> (not (i == j) && test byte j)

for_all : (ℕ → ℕ → ℕ → Bool) → Bool
unfolding holds
for_all p = holds 256 (λ byte. holds 8 (λ i. holds 8 (p byte i)))

for_all_at :
    (p : ℕ → ℕ → ℕ → Bool)
    → for_all p ≡ true
    → (byte i j : ℕ) → byte < 256
    → i < 8
    → j < 8
    → p byte i j ≡ true
unfolding for_all
for_all_at p all byte i j b hi hj = holds_at 8 (p byte i) every_bit j hj
  where
    every_mask : holds 8 (λ m. holds 8 (p byte m)) ≡ true
    every_mask = holds_at 256 (λ x. holds 8 (λ m. holds 8 (p x m))) all byte b

    every_bit : holds 8 (p byte i) ≡ true
    every_bit = holds_at 8 (λ m. holds 8 (p byte m)) every_mask i hi

set_table : for_all set_agrees ≡ true
unfolding for_all set_agrees
set_table = refl

clear_table : for_all clear_agrees ≡ true
unfolding for_all clear_agrees
clear_table = refl

pub test-set :
    (byte i j : ℕ)
    → byte < 256
    → i < 8
    → j < 8
    → test (bit_or byte (mask i)) j ≡ (i == j || test byte j)
test-set byte i j b hi hj =
    <=>_eq _ _ (unfold set_agrees in for_all_at set_agrees set_table byte i j b hi hj)

pub test-clear :
    (byte i j : ℕ)
    → byte < 256
    → i < 8
    → j < 8
    → test (bit_and byte (complement (mask i))) j ≡ (not (i == j) && test byte j)
test-clear byte i j b hi hj =
    <=>_eq _ _ (unfold clear_agrees in for_all_at clear_agrees clear_table byte i j b hi hj)

bounded : ℕ → ℕ → ℕ → Bool
bounded byte i j = ltb (bit_or byte (mask i)) 256 && ltb (bit_and byte (complement (mask i))) 256

bounded_table : for_all bounded ≡ true
unfolding for_all bounded
bounded_table = refl

pub masked-lt :
    (byte i : ℕ)
    → byte < 256
    → i < 8
    → (bit_or byte (mask i) < 256) × (bit_and byte (complement (mask i)) < 256)
unfolding bounded
masked-lt byte i b hi = ground (arith, for_all_at bounded bounded_table byte i 0 b hi (omega arith))
