-- ===== src/ReceiveData/Stripes.antt =====
-- The blocks of a stripe: no two positions have the same block, and the positions that a recovery
-- fills are of blocks that the map lacks.
use native.Mathlib.Nat.{mul-div_cancel}
use mathlib.Core.Option.{some-injective}
use udpcast_rs.Base.{
  ℕ, zero, suc, ◌+◌, ◌*◌, ◌/◌, ◌<◌, ◌≤◌, ◌≡◌, sym, ap, ◌∙◌, subst, arith, false, some, List, [],
  ◌∷◌, Bytes, length, ltb, Bool-cases, Option-cases, inl, inr,
}
use udpcast_rs.Bitmap.{bit_is_set}
use udpcast_rs.Fec.Matrix.{nth}
use udpcast_rs.ReceiveData.Recover.{stripe_indices, held, erased_positions}

-- A stripe's index comes from the position.
pub nth-stripe_indices :
    (n stripes i blocks k g : ℕ)
    → nth (stripe_indices n stripes i blocks) k ≡ some g
    → g ≡ i + k * stripes
unfolding nth stripe_indices
nth-stripe_indices zero stripes i blocks k g h = ground (arith, h)
nth-stripe_indices (suc n) stripes i blocks zero g h = ground (arith, h)
nth-stripe_indices (suc n) stripes i blocks (suc k) g h = elim (Bool-cases (ltb i blocks)) [
  | inr e ↦ ground (arith, h, e)
  | inl e ↦
      omega (arith, nth-stripe_indices n stripes (i + stripes) blocks k g (ground (arith, h, e)))
]

-- No two positions have the same block.
unfoldable pub AreDistinct : List ℕ → Type 0
AreDistinct indices = (a b g : ℕ) → nth indices a ≡ some g → nth indices b ≡ some g → a ≡ b

same_factor : (a b m : ℕ) → 0 < m → a * m ≡ b * m → a ≡ b
same_factor a b m p e = sym (mul-div_cancel a p) ∙ ap (λ (t : ℕ). t / m) e ∙ mul-div_cancel b p

pub stripe_indices-AreDistinct :
    (n stripes i blocks : ℕ) → 0 < stripes → AreDistinct (stripe_indices n stripes i blocks)
unfolding AreDistinct
stripe_indices-AreDistinct n stripes i blocks p a b g ha hb = same_factor a b stripes p (
    omega (
      arith,
      nth-stripe_indices n stripes i blocks a g ha,
      nth-stripe_indices n stripes i blocks b g hb,
    ))

-- The positions from `lo` on are of blocks that the map lacks.
unfoldable pub AllMissing : Bytes → List ℕ → ℕ → List ℕ → Type 0
AllMissing map indices lo [] = Unit
AllMissing map indices lo (j ∷ rest) =
    (lo ≤ j)
    × ((i : ℕ) → nth indices j ≡ some i → (i < 1024) × (bit_is_set i map ≡ false))
    × AllMissing map indices (suc j) rest

later :
    (map : Bytes) (indices : List ℕ) (lo lo' : ℕ) (js : List ℕ)
    → lo ≤ lo'
    → AllMissing map indices lo' js
    → AllMissing map indices lo js
unfolding AllMissing
later map indices lo lo' [] le m = tt
later map indices lo lo' (j ∷ js) le (a, b, c) = (omega (arith, a, le), b, c)

pub erased_positions-AllMissing :
    (map : Bytes) (indices : List ℕ) (j : ℕ) (rest js : List ℕ)
    → length map ≡ 128
    → ((k : ℕ) → nth indices (j + k) ≡ nth rest k)
    → erased_positions map j rest ≡ some js
    → AllMissing map indices j js
unfolding erased_positions AllMissing held nth
erased_positions-AllMissing map indices j [] js w same e =
    subst (AllMissing map indices j) (some-injective _ _ e) tt
erased_positions-AllMissing map indices j (i ∷ rest) js w same e =
    elim (Option-cases (erased_positions map (j + 1) rest)) [
      | inl n ↦ ground (arith, e, n)
      | inr (more, m) ↦
          let tail : AllMissing map indices (suc j) more =
            erased_positions-AllMissing map indices (suc j) rest more w
              (λ k. ap (nth indices) (omega arith) ∙ same (suc k))
              (ap (λ (t : ℕ). erased_positions map t rest) (omega arith) ∙ m) in
          elim (Bool-cases (bit_is_set i map)) [
            | inl there ↦
                subst (AllMissing map indices j) (ground (arith, e, m, there))
                  (later map indices j (suc j) more (omega arith) tail)
            | inr gone ↦
                subst (AllMissing map indices j) {x = j ∷ more} (ground (arith, e, m, gone))
                  (omega arith, λ i' h. missing i' h gone, tail)
          ]
    ]
  where
    missing :
        (i' : ℕ)
        → nth indices j ≡ some i'
        → bit_is_set i map ≡ false
        → (i' < 1024) × (bit_is_set i' map ≡ false)
    missing i' h gone =
        subst (λ t. (t < 1024) × (bit_is_set t map ≡ false))
          (some-injective _ _ (sym (same 0) ∙ ap (nth indices) (omega arith) ∙ h))
          (ground (arith, e, w), gone)
