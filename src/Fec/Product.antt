-- ===== src/Fec/Product.antt =====
-- Multiplication by tables against the product of polynomials over two elements, modulo the
-- coder's polynomial.
use udpcast_rs.Base.{
  ℕ, zero, suc, ◌*◌, ◌/◌, ◌%◌, ◌^◌, ◌<◌, ◌≡◌, sym, ap, ap₂, ◌∙◌, arith, ◌==◌, bit_xor, bit_xor-lt,
  low_bit_xor, ℕ_discrete, if◌then◌else◌, zero-bit_xor,
}
use udpcast_rs.Fec.{gf_mul}
use udpcast_rs.Fec.Tables.{double, double-lt}
use udpcast_rs.Fec.Field.{gf_mul_comm, gf_mul-bit_xor, gf_mul-double, zero-gf_mul, one-gf_mul}

-- Shift and add, over the digits of `x` from the lowest on.
abbrev pub product : (digits x y : ℕ) → ℕ
product zero x y = 0
product (suc n) x y =
    let rest = product n (x / 2) (double y) in if x % 2 == 1 then bit_xor y rest else rest

double_half : (x : ℕ) → x < 256 → double (x / 2) ≡ x / 2 * 2
double_half x lt = ground arith

digit : (x y : ℕ) → y < 256 → gf_mul (x % 2) y ≡ (if x % 2 == 1 then y else 0)
digit x y lt = elim (ℕ_discrete (x % 2) 1) [
  | yes e ↦ ground (arith, e, ap (λ (t : ℕ). gf_mul t y) e, one-gf_mul y lt)
  | no p ↦
      let even : x % 2 ≡ 0 = omega (arith, p) in
      ground (arith, even, ap (λ (t : ℕ). gf_mul t y) even, zero-gf_mul y lt)
]

-- One digit of the first factor.
gf_mul_step :
    (x y : ℕ)
    → x < 256
    → y < 256
    → gf_mul x y ≡ bit_xor (if x % 2 == 1 then y else 0) (gf_mul (x / 2) (double y))
gf_mul_step x y lx ly =
    ap (λ (t : ℕ). gf_mul t y) (low_bit_xor x)
    ∙ gf_mul_comm (bit_xor (x % 2) (x / 2 * 2)) y
        (bit_xor-lt 8 (x % 2) (x / 2 * 2) (omega arith) (omega arith)) ly
    ∙ gf_mul-bit_xor y (x % 2) (x / 2 * 2) ly (omega arith) (omega arith)
    ∙ ap₂ bit_xor (gf_mul_comm y (x % 2) ly (omega arith) ∙ digit x y ly) rest
  where
    rest : gf_mul y (x / 2 * 2) ≡ gf_mul (x / 2) (double y)
    rest =
        ap (gf_mul y) (sym (double_half x lx))
        ∙ gf_mul-double y (x / 2) ly (omega arith)
        ∙ ap double (gf_mul_comm y (x / 2) ly (omega arith))
        ∙ sym (gf_mul-double (x / 2) y (omega arith) ly)

below_product : (n x y : ℕ) → x < 256 → x < 2 ^ n → y < 256 → gf_mul x y ≡ product n x y
below_product zero x y l lx ly =
    let none_left : x ≡ 0 = omega arith in ap (λ (t : ℕ). gf_mul t y) none_left ∙ zero-gf_mul y ly
below_product (suc n) x y l lx ly =
    let rest = below_product n (x / 2) (double y) (omega arith) (omega arith) (double-lt y ly) in
    gf_mul_step x y l ly ∙ elim (ℕ_discrete (x % 2) 1) [
      | yes e ↦ ground (arith, e, rest)
      | no p ↦ ground (arith, p, rest, zero-bit_xor (product n (x / 2) (double y)))
    ]

-- For two bytes, multiplication by the tables of powers and logarithms is the product of
-- polynomials over two elements modulo 0x11d, computed by shift and add.
pub gf_mul-product : (x y : ℕ) → x < 256 → y < 256 → gf_mul x y ≡ product 8 x y
gf_mul-product x y lx ly = below_product 8 x y lx lx ly
