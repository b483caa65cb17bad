-- ===== src/Fec/Encoding.antt =====
-- `fec_encode` against the sums that the FEC blocks stand for.
use udpcast_rs.Base.{
  ℕ, zero, suc, ◌+◌, ◌<◌, ◌≤◌, ◌≡◌, refl, sym, ap, ap₂, ◌∙◌, arith, le→leb, List, [], ◌∷◌, some,
  Bytes, length, replicate, bit_xor, bit_xor_comm, bit_xor-zero,
}
use udpcast_rs.Fec.{inverse, addmul, mul, each_row, encode_rest, encode_blocks, fec_encode}
use udpcast_rs.Fec.Blocks.{
  IsBlock, scale, plus, scale-IsBlock, plus-IsBlock, plus_assoc, addmul_eq, mul_eq,
}
use udpcast_rs.Fec.Coefficients.{coefficient, coefficient-lt, coefficient_nonzero}

-- What a FEC block is meant to be: the sum of the data blocks from `block_no` on, each times its
-- coefficient.
abbrev pub parity : ℕ → (row block_no : ℕ) → List Bytes → Bytes
parity n row block_no [] = replicate n 0
parity n row block_no (d ∷ ds) =
    plus (scale (coefficient row block_no) d) (parity n row (block_no + 1) ds)

abbrev pub AllBlocks : ℕ → List Bytes → Type 0
AllBlocks n [] = Unit
AllBlocks n (x ∷ xs) = IsBlock n x × AllBlocks n xs

pub replicate-IsBlock : (n : ℕ) → IsBlock n (replicate n 0)
replicate-IsBlock zero = tt
replicate-IsBlock (suc n) = (omega arith, replicate-IsBlock n)

pub parity-IsBlock :
    (n row block_no : ℕ) (ds : List Bytes)
    → row < 128
    → block_no + length ds ≤ 128
    → AllBlocks n ds
    → IsBlock n (parity n row block_no ds)
parity-IsBlock n row block_no [] r l a = replicate-IsBlock n
parity-IsBlock n row block_no (d ∷ ds) r l a =
    plus-IsBlock n (scale (coefficient row block_no) d) (parity n row (block_no + 1) ds)
      (scale-IsBlock n (coefficient row block_no) d (coefficient-lt row block_no r (omega arith))
        a.0)
      (parity-IsBlock n row (block_no + 1) ds r (omega arith) a.1)

pub plus_zeros : (n : ℕ) (v : Bytes) → IsBlock n v → plus v (replicate n 0) ≡ v
plus_zeros zero [] b = refl
plus_zeros zero (x ∷ xs) b = elim b [ ]
plus_zeros (suc n) [] b = refl
plus_zeros (suc n) (x ∷ xs) b = ap₂ (λ h t. h ∷ t) (bit_xor-zero x) (plus_zeros n xs b.1)

-- The rows after a data block was added.
abbrev added : ℕ → Bytes → ℕ → List Bytes → List Bytes
added block_no d row [] = []
added block_no d row (x ∷ xs) =
    plus x (scale (coefficient row block_no) d) ∷ added block_no d (row + 1) xs

length-added :
    (block_no : ℕ) (d : Bytes) (row : ℕ) (xs : List Bytes)
    → length (added block_no d row xs) ≡ length xs
length-added block_no d row [] = refl
length-added block_no d row (x ∷ xs) = ap suc (length-added block_no d (row + 1) xs)

abbrev summed : ℕ → ℕ → List Bytes → ℕ → List Bytes → List Bytes
summed n block_no ds row [] = []
summed n block_no ds row (x ∷ xs) =
    plus x (parity n row block_no ds) ∷ summed n block_no ds (row + 1) xs

module _ (n block_no : ℕ) (d : Bytes) (b : block_no < 128) (k : IsBlock n d) where
  each_row-added :
      (row : ℕ) (xs : List Bytes)
      → row + length xs ≤ 128
      → AllBlocks n xs
      → each_row (λ row b. addmul b d (inverse (bit_xor row (128 + block_no))) n) row xs
        ≡ some (added block_no d row xs)
  each_row-added row [] l a = refl
  each_row-added row (x ∷ xs) l a =
      rw
        (
          addmul_eq n (coefficient row block_no) x d
              (coefficient_nonzero row block_no (omega arith) b) a.0 k,
          each_row-added (row + 1) xs (omega arith) a.1,
        )
        refl

  added-AllBlocks :
      (row : ℕ) (xs : List Bytes)
      → row + length xs ≤ 128
      → AllBlocks n xs
      → AllBlocks n (added block_no d row xs)
  added-AllBlocks row [] l a = tt
  added-AllBlocks row (x ∷ xs) l a = (
    plus-IsBlock n x (scale (coefficient row block_no) d) a.0 (
        scale-IsBlock n (coefficient row block_no) d (coefficient-lt row block_no (omega arith) b)
          k),
    added-AllBlocks (row + 1) xs (omega arith) a.1,
  )

summed-added :
    (n block_no : ℕ) (d : Bytes) (ds : List Bytes) (row : ℕ) (xs : List Bytes)
    → summed n (block_no + 1) ds row (added block_no d row xs) ≡ summed n block_no (d ∷ ds) row xs
summed-added n block_no d ds row [] = refl
summed-added n block_no d ds row (x ∷ xs) =
    ap₂ (λ h t. h ∷ t)
      (plus_assoc x (scale (coefficient row block_no) d) (parity n row (block_no + 1) ds))
      (summed-added n block_no d ds (row + 1) xs)

summed_nothing :
    (n block_no row : ℕ) (xs : List Bytes) → AllBlocks n xs → summed n block_no [] row xs ≡ xs
summed_nothing n block_no row [] a = refl
summed_nothing n block_no row (x ∷ xs) a =
    ap₂ (λ h t. h ∷ t) (plus_zeros n x a.0) (summed_nothing n block_no (row + 1) xs a.1)

encode_rest-summed :
    (n block_no : ℕ) (ds xs : List Bytes)
    → block_no + length ds ≤ 128
    → length xs ≤ 128
    → AllBlocks n ds
    → AllBlocks n xs
    → encode_rest n block_no ds xs ≡ some (summed n block_no ds 0 xs)
unfolding encode_rest
encode_rest-summed n block_no [] xs l m k a = ap some (sym (summed_nothing n block_no 0 xs a))
encode_rest-summed n block_no (d ∷ ds) xs l m k a =
    rw (each_row-added n block_no d (omega arith) k.0 0 xs (omega arith) a) (
      encode_rest-summed n (block_no + 1) ds (added block_no d 0 xs) (omega arith)
        (omega (arith, length-added block_no d 0 xs)) k.1
        (added-AllBlocks n block_no d (omega arith) k.0 0 xs (omega arith) a)
      ∙ ap some (summed-added n block_no d ds 0 xs))

-- The FEC blocks that are meant, from the row `row` on.
abbrev pub parities : ℕ → List Bytes → (rounds row : ℕ) → List Bytes
parities n ds zero row = []
parities n ds (suc k) row = parity n row 0 ds ∷ parities n ds k (row + 1)

abbrev scaled : Bytes → ℕ → List Bytes → List Bytes
scaled d row [] = []
scaled d row (x ∷ xs) = scale (coefficient row 0) d ∷ scaled d (row + 1) xs

module _ (n : ℕ) (d : Bytes) (k : IsBlock n d) where
  each_row-scaled :
      (row : ℕ) (xs : List Bytes)
      → row + length xs ≤ 128
      → AllBlocks n xs
      → each_row (λ row b. mul b d (inverse (bit_xor 128 row)) n) row xs ≡ some (scaled d row xs)
  each_row-scaled row [] l a = refl
  each_row-scaled row (x ∷ xs) l a =
      rw
        (
          bit_xor_comm 128 row,
          mul_eq n (coefficient row 0) x d (coefficient_nonzero row 0 (omega arith) (omega arith))
              a.0 k,
          each_row-scaled (row + 1) xs (omega arith) a.1,
        )
        refl

  scaled-AllBlocks :
      (row : ℕ) (xs : List Bytes) → row + length xs ≤ 128 → AllBlocks n (scaled d row xs)
  scaled-AllBlocks row [] l = tt
  scaled-AllBlocks row (x ∷ xs) l = (
    scale-IsBlock n (coefficient row 0) d (coefficient-lt row 0 (omega arith) (omega arith)) k,
    scaled-AllBlocks (row + 1) xs (omega arith),
  )

length-scaled : (d : Bytes) (row : ℕ) (xs : List Bytes) → length (scaled d row xs) ≡ length xs
length-scaled d row [] = refl
length-scaled d row (x ∷ xs) = ap suc (length-scaled d (row + 1) xs)

summed-scaled :
    (n : ℕ) (d : Bytes) (ds : List Bytes) (row : ℕ) (xs : List Bytes)
    → summed n 1 ds row (scaled d row xs) ≡ parities n (d ∷ ds) (length xs) row
summed-scaled n d ds row [] = refl
summed-scaled n d ds row (x ∷ xs) =
    ap (λ t. parity n row 0 (d ∷ ds) ∷ t) (summed-scaled n d ds (row + 1) xs)

-- For up to 128 data blocks, at least one, and room for up to 128 FEC blocks, all of `n` bytes,
-- `fec_encode` succeeds and leaves in each FEC block the sum of the data blocks, each times the
-- coefficient of its place.
pub fec_encode-parities :
    (n : ℕ) (d : Bytes) (ds xs : List Bytes)
    → length (d ∷ ds) ≤ 128
    → length xs ≤ 128
    → AllBlocks n (d ∷ ds)
    → AllBlocks n xs
    → fec_encode n (d ∷ ds) xs ≡ some (parities n (d ∷ ds) (length xs) 0)
unfolding fec_encode encode_blocks
fec_encode-parities n d ds xs l m k a =
    rw
      (
        le→leb (length (d ∷ ds)) 128 l,
        le→leb (length xs) 128 m,
        each_row-scaled n d k.0 0 xs (omega arith) a,
      )
      (encode_rest-summed n 1 ds (scaled d 0 xs) (omega arith) (omega (arith, length-scaled d 0 xs))
          k.1 (scaled-AllBlocks n d k.0 0 xs (omega arith))
        ∙ ap some (summed-scaled n d ds 0 xs))
