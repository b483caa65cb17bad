-- ===== src/Fec/Reduction.antt =====
-- What `reduce` leaves of the sum that a FEC block holds, and the inverse of a matrix of one cell.
use mathlib.Core.Option.{some-injective}
use udpcast_rs.Base.{
  ==_iff, ℕ, zero, suc, ◌+◌, ◌<◌, ◌≤◌, ◌≡◌, ◌≢◌, refl, sym, ap, ap₂, ◌∙◌, arith, false, ◌==◌, List,
  [], ◌∷◌, some, Bytes, length, set, bit_xor, ℕ_discrete, ◌>>=◌,
}
use udpcast_rs.Fec.{gf_mul, inverse, addmul, each_row}
use udpcast_rs.Fec.Field.{inverse-lt, one-gf_mul, one_inverse, gf_mul_comm}
use udpcast_rs.Fec.Blocks.{
  IsBlock, scale, plus, scale-IsBlock, plus-IsBlock, plus_assoc, plus_comm, plus_twice, addmul_eq,
}
use udpcast_rs.Fec.Coefficients.{
  coefficient, index_range, reduce_index, coefficient-lt, coefficient_nonzero,
}
use udpcast_rs.Fec.Encoding.{parity, AllBlocks, plus_zeros, parity-IsBlock}
use udpcast_rs.Fec.Matrix.{
  nth, inverse_of, is_erased, reduce, inverted, invert_mat, eliminate_all, eliminate, use_pivot,
  find_pivot, unscramble, divide_row, scale_row, same, clear_column,
}

module _ (n : ℕ) (y u p : Bytes) (ku : IsBlock n u) (kp : IsBlock n p) where
  cancel_first : plus (plus y (plus u p)) u ≡ plus y p
  cancel_first =
      plus_assoc y (plus u p) u
      ∙ ap (plus y) (ap (λ (t : Bytes). plus t u) (plus_comm u p) ∙ plus_twice n p u kp ku)

  cancel_last : plus (plus y (plus u p)) p ≡ plus y u
  cancel_last = plus_assoc y (plus u p) p ∙ ap (plus y) (plus_twice n u p ku kp)

pub inverse_of-index :
    (row block_no : ℕ)
    → row < 128
    → block_no < 128
    → inverse_of (bit_xor (bit_xor row block_no) 128) ≡ some (coefficient row block_no)
inverse_of-index row block_no r b =
    rw (reduce_index row block_no r b) (ground (arith, index_range row block_no r b))

module _ (n row e : ℕ) (r : row < 128) where
  -- One data block that is there.
  take_out :
      (col : ℕ) (d x : Bytes)
      → col < 128
      → IsBlock n d
      → IsBlock n x
      → each_row
          (λ j b. do
            blno ← nth (row ∷ []) j
            c ← inverse_of (bit_xor (bit_xor blno col) 128)
            addmul b d c n)
          0
          (x ∷ [])
        ≡ some (plus x (scale (coefficient row col) d) ∷ [])
  unfolding nth
  take_out col d x l kd kx =
      rw
        (
          inverse_of-index row col r l,
          addmul_eq n (coefficient row col) x d (coefficient_nonzero row col r l) kx kd,
        )
        refl

  more-IsBlock :
      (col : ℕ) (d x : Bytes)
      → col < 128
      → IsBlock n d
      → IsBlock n x
      → IsBlock n (plus x (scale (coefficient row col) d))
  more-IsBlock col d x l kd kx =
      plus-IsBlock n x (scale (coefficient row col) d) kx
        (scale-IsBlock n (coefficient row col) d (coefficient-lt row col r l) kd)

  reduce_behind :
      (col : ℕ) (ds : List Bytes) (x : Bytes)
      → col + length ds ≤ 128
      → AllBlocks n ds
      → IsBlock n x
      → reduce n (row ∷ []) (e ∷ []) col 1 ds (x ∷ []) ≡ some (plus x (parity n row col ds) ∷ [])
  unfolding reduce is_erased
  reduce_behind col [] x l k kx = ap (λ t. some (t ∷ [])) (sym (plus_zeros n x kx))
  reduce_behind col (d ∷ ds) x l k kx = rw (take_out col d x (omega arith) k.0 kx) (
      reduce_behind (col + 1) ds (plus x (scale (coefficient row col) d)) (omega arith) k.1
        (more-IsBlock col d x (omega arith) k.0 kx)
      ∙ ap (λ t. some (t ∷ []))
          (plus_assoc x (scale (coefficient row col) d) (parity n row (col + 1) ds)))

  -- What is left of a sum when the blocks that are there are taken out is the erased block's part.
  pub reduce_before :
      (col i : ℕ) (ds : List Bytes) (b lost y : Bytes)
      → e ≡ col + i
      → nth ds i ≡ some b
      → col + length ds ≤ 128
      → AllBlocks n ds
      → IsBlock n y
      → reduce n (row ∷ []) (e ∷ []) col 0 (set ds i lost) (plus y (parity n row col ds) ∷ [])
        ≡ some (plus y (scale (coefficient row e) b) ∷ [])
  unfolding reduce is_erased nth
  reduce_before col i [] b lost y at h l k ky = ground (arith, h)
  reduce_before col zero (d ∷ ds) b lost y at h l k ky =
      let u = scale (coefficient row col) d in
      let p = parity n row (col + 1) ds in
      let ku =
        scale-IsBlock n (coefficient row col) d (coefficient-lt row col r (omega arith)) k.0 in
      let kp = parity-IsBlock n row (col + 1) ds r (omega arith) k.1 in
      let here : e ≡ col = omega (arith, at) in
      rw ((==_iff e col).1 here) (
        reduce_behind (col + 1) ds (plus y (plus u p)) (omega arith) k.1
          (plus-IsBlock n y (plus u p) ky (plus-IsBlock n u p ku kp))
        ∙ ap (λ t. some (t ∷ []))
            (cancel_last n y u p ku kp
              ∙ ap₂ (λ c v. plus y (scale (coefficient row c) v)) (sym here)
                  (some-injective _ _ h)))
  reduce_before col (suc i) (d ∷ ds) b lost y at h l k ky =
      let u = scale (coefficient row col) d in
      let p = parity n row (col + 1) ds in
      let ku =
        scale-IsBlock n (coefficient row col) d (coefficient-lt row col r (omega arith)) k.0 in
      let kp = parity-IsBlock n row (col + 1) ds r (omega arith) k.1 in
      let elsewhere : (e == col) ≡ false = ground (arith, at) in
      rw
        (
          elsewhere,
          inverse_of-index row col r (omega arith),
          addmul_eq n (coefficient row col) (plus y (plus u p)) d
              (coefficient_nonzero row col r (omega arith))
              (plus-IsBlock n y (plus u p) ky (plus-IsBlock n u p ku kp)) k.0,
        )
        (ap (λ t. reduce n (row ∷ []) (e ∷ []) (col + 1) 0 (set ds i lost) (t ∷ []))
            (cancel_first n y u p ku kp)
          ∙ reduce_before (col + 1) i ds b lost y (omega (arith, at)) h (omega arith) k.1 ky)

times_one : (x : ℕ) → x < 256 → gf_mul x 1 ≡ x
times_one x lt = gf_mul_comm x 1 lt (omega arith) ∙ one-gf_mul x lt

pub invert_one :
    (c : ℕ) → c < 256 → c ≢ 0 → invert_mat (c ∷ []) 1 ≡ some (inverted (inverse c ∷ []))
unfolding invert_mat eliminate_all eliminate use_pivot find_pivot unscramble divide_row scale_row
    same clear_column
invert_one c lt p = elim (ℕ_discrete c 1) [
  | yes e ↦ ground (arith, p, e, ap inverse e, one_inverse)
  | no q ↦ ground (arith, p, q, times_one (inverse c) (inverse-lt c lt p))
]
