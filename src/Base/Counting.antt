-- ===== src/Base/Counting.antt =====
-- How many numbers below a bound pass a test.
use Prim.Native.Nat.{ℕ, zero, suc, ◌+◌, ◌≤◌, ◌<◌}
use mathlib.Core.Path.{◌≡◌, refl, ap, ◌∙◌}
use mathlib.Core.Logic.{◌⊎◌, inl, inr}
use mathlib.Core.Bool.{Bool, true, false, not, ◌&&◌, ◌||◌}
use native.Mathlib.Omega.{arith}
use native.Mathlib.Decide.{ℕ_discrete}
use udpcast_rs.Base.Tests.{Bool-cases, ◌==◌, if◌then◌else◌}

pub count : (ℕ → Bool) → ℕ → ℕ
count p zero = 0
count p (suc n) = (if p n then 1 else 0) + count p n

pub count_ext : (p q : ℕ → Bool) (n : ℕ) → ((j : ℕ) → j < n → p j ≡ q j) → count p n ≡ count q n
unfolding count
count_ext p q zero h = refl
count_ext p q (suc n) h = ground (arith, h n, count_ext p q n (λ j lt. h j (omega arith)))

pub count-le : (p : ℕ → Bool) (n : ℕ) → count p n ≤ n
unfolding count
count-le p zero = omega arith
count-le p (suc n) = ground (arith, count-le p n)

-- One more number passes.
pub count_add :
    (p q : ℕ → Bool) (i n : ℕ)
    → ((j : ℕ) → q j ≡ (i == j || p j))
    → p i ≡ false
    → i < n
    → count q n ≡ count p n + 1
unfolding count
count_add p q i zero h new lt = absurd (omega arith)
count_add p q i (suc n) h new lt = elim (ℕ_discrete i n) [
  | yes e ↦ ground (arith, h n, e, ap p e, count_ext q p n (λ j below. ground (arith, h j)))
  | no ne ↦ ground (arith, h n, count_add p q i n h new (omega arith))
]

-- One number fewer passes.
pub count_remove :
    (p q : ℕ → Bool) (i n : ℕ)
    → ((j : ℕ) → q j ≡ (not (i == j) && p j))
    → p i ≡ true
    → i < n
    → count q n + 1 ≡ count p n
unfolding count
count_remove p q i zero h old lt = absurd (omega arith)
count_remove p q i (suc n) h old lt = elim (ℕ_discrete i n) [
  | yes e ↦ ground (arith, h n, e, ap p e, count_ext q p n (λ j below. ground (arith, h j)))
  | no ne ↦ ground (arith, h n, count_remove p q i n h old (omega arith))
]

pub count_mono :
    (p q : ℕ → Bool) (n : ℕ) → ((j : ℕ) → j < n → p j ≡ true → q j ≡ true) → count p n ≤ count q n
unfolding count
count_mono p q zero h = omega arith
count_mono p q (suc n) h = ground (arith, h n, count_mono p q n (λ j lt. h j (omega arith)))

-- If `p` passes no more than `q`, and as many, they pass the same numbers.
pub count_all :
    (p q : ℕ → Bool) (n : ℕ)
    → ((j : ℕ) → j < n → p j ≡ true → q j ≡ true)
    → count q n ≤ count p n
    → (j : ℕ) → j < n
    → q j ≡ true
    → p j ≡ true
unfolding count
count_all p q zero h le j lt s = absurd (omega arith)
count_all p q (suc n) h le j lt s = elim (ℕ_discrete j n) [
  | yes e ↦ ground (arith, h n, e, ap p e, ap q e, count_mono p q n (λ k below. h k (omega arith)))
  | no ne ↦
      count_all p q n (λ k below. h k (omega arith))
        (ground (arith, h n, count_mono p q n (λ k below. h k (omega arith)))) j (omega arith) s
]

pub count-zero : (p : ℕ → Bool) (n : ℕ) → ((j : ℕ) → j < n → p j ≡ false) → count p n ≡ 0
unfolding count
count-zero p zero h = refl
count-zero p (suc n) h = ground (arith, h n, count-zero p n (λ j lt. h j (omega arith)))

-- All numbers pass exactly when as many pass as there are.
pub count-full : (p : ℕ → Bool) (n : ℕ) → ((j : ℕ) → j < n → p j ≡ true) → count p n ≡ n
unfolding count
count-full p zero h = refl
count-full p (suc n) h = ground (arith, h n, count-full p n (λ j lt. h j (omega arith)))

pub all_of_count : (p : ℕ → Bool) (n j : ℕ) → count p n ≡ n → j < n → p j ≡ true
unfolding count
all_of_count p zero j e lt = absurd (omega arith)
all_of_count p (suc n) j e lt = elim (ℕ_discrete j n) [
  | yes h ↦ ground (arith, ap p h, count-le p n)
  | no ne ↦ all_of_count p n j (ground (arith, count-le p n)) (omega arith)
]

-- More numbers pass below a larger bound.
pub count_up : (p : ℕ → Bool) (m n : ℕ) → m ≤ n → count p m ≤ count p n
unfolding count
count_up p m zero le = ground (arith, le, count-zero_bound p m)
  where
    count-zero_bound : (p : ℕ → Bool) (m : ℕ) → m ≤ 0 → count p m ≤ 0
    count-zero_bound p m h = omega (arith, h, count-le p m)
count_up p m (suc n) le = elim (ℕ_discrete m (suc n)) [
  | yes e ↦ omega (arith, ap (count p) e)
  | no ne ↦ omega (arith, count_up p m n (omega (arith, le, ne)))
]

-- Either all numbers below a bound pass, or one does not.
pub first_failure :
    (p : ℕ → Bool) (n : ℕ) → ((j : ℕ) → j < n → p j ≡ true) ⊎ (j : ℕ) × (j < n) × (p j ≡ false)
first_failure p zero = inl (λ j lt. absurd (omega arith))
first_failure p (suc n) = elim (Bool-cases (p n)) [
  | inr e ↦ inr (n, omega arith, e)
  | inl e ↦ elim (first_failure p n) [
    | inr (j, lt, f) ↦ inr (j, omega (arith, lt), f)
    | inl all ↦ inl (λ j lt. elim (ℕ_discrete j n) [
      | yes h ↦ ap p h ∙ e
      | no ne ↦ all j (omega (arith, lt, ne))
    ])
  ]
]
