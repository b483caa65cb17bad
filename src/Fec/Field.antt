-- ===== src/Fec/Field.antt =====
-- The laws of the multiplication by tables.
use udpcast_rs.Base.{
  ℕ, zero, suc, ◌+◌, ◌-◌, ◌%◌, ◌<◌, ◌≤◌, ◌≡◌, ◌≢◌, refl, sym, ap, ap₂, ◌∙◌, arith, get_or, bit_xor,
  bit_xor-lt, ℕ_discrete,
}
use udpcast_rs.Fec.{
  gf_exp, gf_log, inverse, build_inverse, inverses, build_mul, gf_mul, gf_size, build_exp_log,
}
use udpcast_rs.Fec.Tables.{
  double, gf_log-lt, gf_exp-gf_log, double-lt, double-bit_xor, gf_exp_range, gf_exp_next,
}

-- Doubling several times.
pub double_times : ℕ → ℕ → ℕ
double_times zero x = x
double_times (suc n) x = double (double_times n x)

double_times-zero : (n : ℕ) → double_times n 0 ≡ 0
unfolding double_times
double_times-zero zero = refl
double_times-zero (suc n) = ap double (double_times-zero n)

double_times-lt : (n x : ℕ) → x < 256 → double_times n x < 256
unfolding double_times
double_times-lt zero x lt = lt
double_times-lt (suc n) x lt = double-lt (double_times n x) (double_times-lt n x lt)

double_times-bit_xor :
    (n x y : ℕ)
    → x < 256
    → y < 256
    → double_times n (bit_xor x y) ≡ bit_xor (double_times n x) (double_times n y)
unfolding double_times
double_times-bit_xor zero x y lx ly = refl
double_times-bit_xor (suc n) x y lx ly =
    ap double (double_times-bit_xor n x y lx ly)
    ∙ double-bit_xor (double_times n x) (double_times-lt n x lx) (double_times n y)
        (double_times-lt n y ly)

double_times-gf_exp : (n k : ℕ) → k < 255 → double_times n (gf_exp k) ≡ gf_exp ((k + n) % 255)
unfolding double_times
double_times-gf_exp zero k lt = ap gf_exp (omega arith)
double_times-gf_exp (suc n) k lt =
    ap double (double_times-gf_exp n k lt)
    ∙ sym (gf_exp_next ((k + n) % 255) (omega arith))
    ∙ ap gf_exp (omega arith)

-- An index of the table gives its row and its column back.
gf_mul-build_mul : (x y : ℕ) → y < 256 → gf_mul x y ≡ build_mul x y
unfolding gf_mul
gf_mul-build_mul x y lt = ap₂ build_mul (omega arith) (omega arith)

build_mul_nonzero : (x y : ℕ) → x ≢ 0 → y ≢ 0 → build_mul x y ≡ gf_exp ((gf_log x + gf_log y) % 255)
unfolding build_mul
build_mul_nonzero x y p q = ground (arith, p, q)

build_mul-zero : (x : ℕ) → build_mul x 0 ≡ 0
unfolding build_mul
build_mul-zero x = ground arith

pub zero-gf_mul : (y : ℕ) → y < 256 → gf_mul 0 y ≡ 0
unfolding build_mul
zero-gf_mul y lt = gf_mul-build_mul 0 y lt

pub gf_mul_null : (x y : ℕ) → x ≡ 0 → y < 256 → gf_mul x y ≡ 0
gf_mul_null x y e lt = ap (λ (t : ℕ). gf_mul t y) e ∙ zero-gf_mul y lt

-- A product is its second factor, doubled as often as the logarithm of the first says.
gf_mul-double_times : (x y : ℕ) → x < 256 → y < 256 → x ≢ 0 → gf_mul x y ≡ double_times (gf_log x) y
gf_mul-double_times x y lx ly p = elim (ℕ_discrete y 0) [
  | yes e ↦
      gf_mul-build_mul x y ly
      ∙ ap (build_mul x) e
      ∙ build_mul-zero x
      ∙ sym (double_times-zero (gf_log x))
      ∙ ap (double_times (gf_log x)) (sym e)
  | no q ↦
      gf_mul-build_mul x y ly
      ∙ build_mul_nonzero x y p q
      ∙ ap gf_exp (omega arith)
      ∙ sym (double_times-gf_exp (gf_log x) (gf_log y) (gf_log-lt y ly q))
      ∙ ap (double_times (gf_log x)) (gf_exp-gf_log y ly q)
]

pub gf_mul-lt : (x y : ℕ) → x < 256 → y < 256 → gf_mul x y < 256
gf_mul-lt x y lx ly = elim (ℕ_discrete x 0) [
  | yes e ↦ omega (arith, ap (λ (t : ℕ). gf_mul t y) e, zero-gf_mul y ly)
  | no p ↦ omega (arith, gf_mul-double_times x y lx ly p, double_times-lt (gf_log x) y ly)
]

pub gf_mul_comm : (x y : ℕ) → x < 256 → y < 256 → gf_mul x y ≡ gf_mul y x
unfolding build_mul
gf_mul_comm x y lx ly = gf_mul-build_mul x y ly ∙ swapped ∙ sym (gf_mul-build_mul y x lx)
  where
    turned : gf_exp ((gf_log x + gf_log y) % 255) ≡ gf_exp ((gf_log y + gf_log x) % 255)
    turned = ap gf_exp (omega arith)

    swapped : build_mul x y ≡ build_mul y x
    swapped = ground (arith, turned)

-- Multiplication by tables distributes over the sum, which is the exclusive or.
pub gf_mul-bit_xor :
    (x y z : ℕ)
    → x < 256
    → y < 256
    → z < 256
    → gf_mul x (bit_xor y z) ≡ bit_xor (gf_mul x y) (gf_mul x z)
gf_mul-bit_xor x y z lx ly lz = elim (ℕ_discrete x 0) [
  | yes e ↦
      gf_mul_null x (bit_xor y z) e (bit_xor-lt 8 y z ly lz)
      ∙ sym (ap₂ bit_xor (gf_mul_null x y e ly) (gf_mul_null x z e lz))
  | no p ↦
      gf_mul-double_times x (bit_xor y z) lx (bit_xor-lt 8 y z ly lz) p
      ∙ double_times-bit_xor (gf_log x) y z ly lz
      ∙ sym (ap₂ bit_xor (gf_mul-double_times x y lx ly p) (gf_mul-double_times x z lx lz p))
]

double_times-double : (n x : ℕ) → double_times n (double x) ≡ double (double_times n x)
unfolding double_times
double_times-double zero x = refl
double_times-double (suc n) x = ap double (double_times-double n x)

pub gf_mul-double : (x y : ℕ) → x < 256 → y < 256 → gf_mul x (double y) ≡ double (gf_mul x y)
gf_mul-double x y lx ly = elim (ℕ_discrete x 0) [
  | yes e ↦ gf_mul_null x (double y) e (double-lt y ly) ∙ sym (ap double (gf_mul_null x y e ly))
  | no p ↦
      gf_mul-double_times x (double y) lx (double-lt y ly) p
      ∙ double_times-double (gf_log x) y
      ∙ ap double (sym (gf_mul-double_times x y lx ly p))
]

double_times-gf_mul :
    (n x y : ℕ) → x < 256 → y < 256 → gf_mul (double_times n x) y ≡ double_times n (gf_mul x y)
unfolding double_times
double_times-gf_mul zero x y lx ly = refl
double_times-gf_mul (suc n) x y lx ly =
    gf_mul_comm (double (double_times n x)) y (double_times-lt (suc n) x lx) ly
    ∙ gf_mul-double y (double_times n x) ly (double_times-lt n x lx)
    ∙ ap double (gf_mul_comm y (double_times n x) ly (double_times-lt n x lx))
    ∙ ap double (double_times-gf_mul n x y lx ly)

pub gf_mul_assoc :
    (x y z : ℕ) → x < 256 → y < 256 → z < 256 → gf_mul (gf_mul x y) z ≡ gf_mul x (gf_mul y z)
gf_mul_assoc x y z lx ly lz = elim (ℕ_discrete x 0) [
  | yes e ↦
      gf_mul_null (gf_mul x y) z (gf_mul_null x y e ly) lz
      ∙ sym (gf_mul_null x (gf_mul y z) e (gf_mul-lt y z ly lz))
  | no p ↦
      ap (λ (t : ℕ). gf_mul t z) (gf_mul-double_times x y lx ly p)
      ∙ double_times-gf_mul (gf_log x) y z ly lz
      ∙ sym (gf_mul-double_times x (gf_mul y z) lx (gf_mul-lt y z ly lz) p)
]

pub one-gf_mul : (y : ℕ) → y < 256 → gf_mul 1 y ≡ y
unfolding double_times gf_log build_exp_log
one-gf_mul y lt = gf_mul-double_times 1 y (omega arith) lt (omega arith)

two-gf_mul : (y : ℕ) → y < 256 → gf_mul 2 y ≡ double y
unfolding double_times gf_log build_exp_log
two-gf_mul y lt = gf_mul-double_times 2 y (omega arith) lt (omega arith)

get_or-inverses :
    (n i k : ℕ) → k < n → get_or (inverses n i) k 0 ≡ gf_exp (gf_size - gf_log (i + k))
unfolding inverses
get_or-inverses zero i k lt = absurd (omega arith)
get_or-inverses (suc n) i zero lt = ap (λ (t : ℕ). gf_exp (gf_size - gf_log t)) (omega arith)
get_or-inverses (suc n) i (suc k) lt =
    get_or-inverses n (i + 1) k (omega arith)
    ∙ ap (λ (t : ℕ). gf_exp (gf_size - gf_log t)) (omega arith)

first_power : gf_exp 0 ≡ 1
unfolding gf_exp build_exp_log
first_power = refl

-- From 2 on, the logarithm is not 0.
gf_log_positive : (x : ℕ) → x < 256 → 2 ≤ x → 0 < gf_log x
gf_log_positive x lt h = elim (ℕ_discrete (gf_log x) 0) [
  | yes e ↦ absurd (omega (arith, gf_exp-gf_log x lt (omega arith), ap gf_exp e, first_power))
  | no p ↦ omega arith
]

inverse_at : (x : ℕ) → x < 256 → 2 ≤ x → inverse x ≡ gf_exp (gf_size - gf_log x)
unfolding inverse build_inverse
inverse_at zero lt h = absurd (omega arith)
inverse_at (suc zero) lt h = absurd (omega arith)
inverse_at (suc (suc k)) lt h =
    get_or-inverses 254 2 k (omega arith)
    ∙ ap (λ (t : ℕ). gf_exp (gf_size - gf_log t)) (omega arith)

pub one_inverse : inverse 1 ≡ 1
unfolding inverse build_inverse
one_inverse = refl

pub inverse-lt : (x : ℕ) → x < 256 → x ≢ 0 → inverse x < 256
inverse-lt x lt p = elim (ℕ_discrete x 1) [
  | yes e ↦ omega (arith, ap inverse e, one_inverse)
  | no q ↦ omega (
    arith,
    inverse_at x lt (omega arith),
    (gf_exp_range (gf_size - gf_log x) (omega (arith, gf_log_positive x lt (omega arith)))).1,
  )
]

-- A byte that is not 0 times its entry in the table of inverses is 1.
pub gf_mul-inverse : (x : ℕ) → x < 256 → x ≢ 0 → gf_mul x (inverse x) ≡ 1
gf_mul-inverse x lt p = elim (ℕ_discrete x 1) [
  | yes e ↦ ap₂ gf_mul e (ap inverse e ∙ one_inverse) ∙ one-gf_mul 1 (omega arith)
  | no q ↦
      gf_mul-double_times x (inverse x) lt (inverse-lt x lt p) p
      ∙ ap (double_times (gf_log x)) (inverse_at x lt (omega arith))
      ∙ double_times-gf_exp (gf_log x) (gf_size - gf_log x)
          (omega (arith, gf_log_positive x lt (omega arith)))
      ∙ ap gf_exp (omega (arith, gf_log-lt x lt p))
      ∙ first_power
]

pub inverse_nonzero : (x : ℕ) → x < 256 → x ≢ 0 → inverse x ≢ 0
inverse_nonzero x lt p e =
    let null : gf_mul x 0 ≡ 0 = gf_mul_comm x 0 lt (omega arith) ∙ zero-gf_mul x lt in
    omega (arith, gf_mul-inverse x lt p, ap (gf_mul x) e, null)
