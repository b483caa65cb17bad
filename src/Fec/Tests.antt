-- ===== src/Fec/Tests.antt =====
-- The coder on small blocks, and the theorems' examples.
use udpcast_rs.Base.{◌≡◌, refl, arith, some, List, [], ◌∷◌, Bytes, length, set, bit_xor}
use udpcast_rs.Fec.{
  encode_blocks, encode_rest, build_mul, addmul, addmul_loop, mul, mul_loop, build_inverse,
  inverses, gf_exp, gf_log, build_exp_log, fec_encode, gf_mul, inverse,
}
use udpcast_rs.Fec.Field.{gf_mul-bit_xor}
use udpcast_rs.Fec.Product.{product, gf_mul-product}
use udpcast_rs.Fec.Encoding.{AllBlocks, parities, fec_encode-parities}
use udpcast_rs.Fec.Erasure.{fec_decode-fec_encode}
use udpcast_rs.Fec.Matrix.{
  reduce, is_erased, fill_rows, fill_cols, put, invert_mat, eliminate_all, eliminate, use_pivot,
  find_pivot, scan_rows, scan_row, swap_rows, swap_cols, scale_row, clear_column, divide_row, same,
  unscramble, add_cols, restore, undecodable, decoded, fec_decode, nth,
}

abbrev rest : List Bytes
rest = (200 ∷ 0 ∷ []) ∷ (17 ∷ 255 ∷ []) ∷ []

abbrev blocks : List Bytes
blocks = (1 ∷ 2 ∷ []) ∷ rest

abbrev empty_blocks : List Bytes
empty_blocks = (0 ∷ 0 ∷ []) ∷ (0 ∷ 0 ∷ []) ∷ []

abbrev sums : List Bytes
sums = (19 ∷ 61 ∷ []) ∷ (211 ∷ 108 ∷ []) ∷ []

encoded : fec_encode 2 blocks empty_blocks ≡ some sums
unfolding fec_encode encode_blocks encode_rest gf_mul inverse build_mul addmul addmul_loop mul
    mul_loop build_inverse inverses gf_exp gf_log build_exp_log
encoded = refl

-- Two blocks that are lost come back from two FEC blocks.
both_lost :
    fec_decode 2 ((9 ∷ 9 ∷ []) ∷ (200 ∷ 0 ∷ []) ∷ (8 ∷ 8 ∷ []) ∷ []) sums (0 ∷ 1 ∷ []) (0 ∷ 2 ∷ [])
    ≡ some (decoded blocks)
unfolding fec_decode nth gf_mul inverse build_mul addmul addmul_loop mul mul_loop build_inverse
    inverses gf_exp gf_log build_exp_log reduce is_erased fill_rows fill_cols put invert_mat
    eliminate_all eliminate use_pivot find_pivot scan_rows scan_row swap_rows swap_cols scale_row
    clear_column divide_row same unscramble add_cols restore
both_lost = refl

-- A FEC block twice does not help.
not_enough :
    fec_decode 2
      ((9 ∷ 9 ∷ []) ∷ (200 ∷ 0 ∷ []) ∷ (8 ∷ 8 ∷ []) ∷ [])
      ((211 ∷ 108 ∷ []) ∷ (211 ∷ 108 ∷ []) ∷ [])
      (1 ∷ 1 ∷ [])
      (0 ∷ 2 ∷ [])
    ≡ some undecodable
unfolding fec_decode nth gf_mul inverse build_mul addmul addmul_loop mul mul_loop build_inverse
    inverses gf_exp gf_log build_exp_log reduce is_erased fill_rows fill_cols put invert_mat
    eliminate_all eliminate use_pivot find_pivot scan_rows scan_row swap_rows swap_cols scale_row
    clear_column divide_row same unscramble add_cols restore
not_enough = refl

blocks-AllBlocks : AllBlocks 2 blocks
blocks-AllBlocks = (
  (omega arith, (omega arith, tt)),
  ((omega arith, (omega arith, tt)), ((omega arith, (omega arith, tt)), tt)),
)

empty_blocks-AllBlocks : AllBlocks 2 empty_blocks
empty_blocks-AllBlocks = ((omega arith, (omega arith, tt)), ((omega arith, (omega arith, tt)), tt))

fec_decode-fec_encode_example :
    fec_decode 2 (set blocks 1 (5 ∷ 6 ∷ [])) ((211 ∷ 108 ∷ []) ∷ []) (1 ∷ []) (1 ∷ [])
    ≡ some (decoded blocks)
unfolding nth
fec_decode-fec_encode_example =
    fec_decode-fec_encode 2 1 1 (1 ∷ 2 ∷ []) rest empty_blocks sums (200 ∷ 0 ∷ []) (211 ∷ 108 ∷ [])
      (5 ∷ 6 ∷ []) (omega arith) (omega arith) blocks-AllBlocks empty_blocks-AllBlocks encoded refl
      refl (omega arith, (omega arith, tt))

fec_encode-parities_example :
    fec_encode 2 blocks empty_blocks ≡ some (parities 2 blocks (length empty_blocks) 0)
fec_encode-parities_example =
    fec_encode-parities 2 (1 ∷ 2 ∷ []) rest empty_blocks (omega arith) (omega arith)
      blocks-AllBlocks empty_blocks-AllBlocks

gf_mul-product_example : gf_mul 200 17 ≡ product 8 200 17
gf_mul-product_example = gf_mul-product 200 17 (omega arith) (omega arith)

gf_mul-bit_xor_example : gf_mul 3 (bit_xor 200 17) ≡ bit_xor (gf_mul 3 200) (gf_mul 3 17)
gf_mul-bit_xor_example = gf_mul-bit_xor 3 200 17 (omega arith) (omega arith) (omega arith)
