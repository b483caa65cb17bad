-- ===== src/Fec/Coefficients.antt =====
-- The coefficients of the data blocks, and the numbers that they are looked up with.
use udpcast_rs.Base.{
  ℕ, ◌+◌, ◌<◌, ◌≡◌, ◌≢◌, refl, arith, Bool, true, ◌&&◌, ◌==◌, ltb, bit_xor, holds, holds_at,
}
use udpcast_rs.Fec.{inverse}
use udpcast_rs.Fec.Field.{inverse-lt, inverse_nonzero}

-- The numbers that `fec_encode` and `fec_decode` look their coefficients up with are the same, and
-- none of them is 0.
coefficient_agrees : ℕ → ℕ → Bool
coefficient_agrees row block_no =
    (ltb 0 (bit_xor row (128 + block_no)) && ltb (bit_xor row (128 + block_no)) 256)
    && (bit_xor (bit_xor row block_no) 128 == bit_xor row (128 + block_no)
        && bit_xor (128 + row) block_no == bit_xor row (128 + block_no))

coefficient_table : holds 128 (λ row. holds 128 (coefficient_agrees row)) ≡ true
unfolding holds coefficient_agrees
coefficient_table = refl

-- The coefficient of a data block in a FEC block.
abbrev pub coefficient : (row block_no : ℕ) → ℕ
coefficient row block_no = inverse (bit_xor row (128 + block_no))

module _ (row block_no : ℕ) (r : row < 128) (b : block_no < 128) where
  facts : coefficient_agrees row block_no ≡ true
  facts =
      holds_at 128 (coefficient_agrees row)
        (holds_at 128 (λ row. holds 128 (coefficient_agrees row)) coefficient_table row r) block_no
        b

  pub index_range : (0 < bit_xor row (128 + block_no)) × (bit_xor row (128 + block_no) < 256)
  unfolding coefficient_agrees
  index_range = ground (arith, facts)

  pub reduce_index : bit_xor (bit_xor row block_no) 128 ≡ bit_xor row (128 + block_no)
  unfolding coefficient_agrees
  reduce_index = ground (arith, facts)

  pub matrix_index : bit_xor (128 + row) block_no ≡ bit_xor row (128 + block_no)
  unfolding coefficient_agrees
  matrix_index = ground (arith, facts)

  pub coefficient-lt : coefficient row block_no < 256
  coefficient-lt =
      inverse-lt (bit_xor row (128 + block_no)) index_range.1 (omega (arith, index_range.0))

  pub coefficient_nonzero : coefficient row block_no ≢ 0
  coefficient_nonzero =
      inverse_nonzero (bit_xor row (128 + block_no)) index_range.1 (omega (arith, index_range.0))
