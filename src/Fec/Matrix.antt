-- ===== src/Fec/Matrix.antt =====
-- `invert_mat` of src/fec.rs, the inversion of a square matrix in place by Gauss-Jordan
-- elimination, and `fec_decode`, which calls it. The matrix is a list of `k * k` bytes.
use udpcast_rs.Base.{
  ℕ, zero, suc, ◌+◌, ◌*◌, Bool, true, false, not, ◌&&◌, ◌==◌, ltb, if◌then◌else◌, Option, none,
  some, ◌>>=◌, List, [], ◌∷◌, Bytes, length, get_or, set, take, drop, replicate, copy_at, bit_xor,
}
use udpcast_rs.Fec.{gf_mul, inverse, addmul, mul, each_row}

abbrev pub cell : Bytes → ℕ → ℕ → ℕ → ℕ
cell src k row col = get_or src (row * k + col) 0

-- Where the search for a pivot ends.
pub data Search : Type 0 where
  absent singular : Search
  pivot : (row col : ℕ) → Search

-- The columns of a row from `ix` on.
unfoldable pub scan_row : Bytes → List ℕ → ℕ → ℕ → (rounds ix : ℕ) → Search
scan_row src ipiv k row zero ix = absent
scan_row src ipiv k row (suc n) ix =
    let rest = scan_row src ipiv k row n (ix + 1) in
    let uses = get_or ipiv ix 0 in
    if uses == 0
    then (if cell src k row ix == 0 then rest else pivot row ix)
    else if ltb 1 uses
    then singular
    else rest

-- The rows from `row` on.
unfoldable pub scan_rows : Bytes → List ℕ → ℕ → (rounds row : ℕ) → Search
scan_rows src ipiv k zero row = absent
scan_rows src ipiv k (suc n) row =
    let rest = scan_rows src ipiv k n (row + 1) in
    if get_or ipiv row 0 == 1 then rest else elim (scan_row src ipiv k row k 0) [
      | absent ↦ rest
      | singular ↦ singular
      | pivot r c ↦ pivot r c
    ]

unfoldable pub find_pivot : Bytes → List ℕ → ℕ → ℕ → Search
find_pivot src ipiv k col =
    if not (get_or ipiv col 0 == 1) && not (cell src k col col == 0)
    then pivot col col
    else scan_rows src ipiv k k 0

-- `src.swap(i, j)`
abbrev pub swap_cells : Bytes → ℕ → ℕ → Bytes
swap_cells src i j = set (set src i (get_or src j 0)) j (get_or src i 0)

unfoldable pub swap_rows : Bytes → ℕ → ℕ → ℕ → (rounds ix : ℕ) → Bytes
swap_rows src k a b zero ix = src
swap_rows src k a b (suc n) ix =
    swap_rows (swap_cells src (a * k + ix) (b * k + ix)) k a b n (ix + 1)

unfoldable pub swap_cols : Bytes → ℕ → ℕ → ℕ → (rounds row : ℕ) → Bytes
swap_cols src k a b zero row = src
swap_cols src k a b (suc n) row =
    swap_cols (swap_cells src (row * k + a) (row * k + b)) k a b n (row + 1)

unfoldable pub scale_row : ℕ → Bytes → ℕ → ℕ → (rounds ix : ℕ) → Bytes
scale_row c src k row zero ix = src
scale_row c src k row (suc n) ix =
    scale_row c (set src (row * k + ix) (gf_mul c (cell src k row ix))) k row n (ix + 1)

abbrev pub row_of : Bytes → ℕ → ℕ → Bytes
row_of src k row = take k (drop (row * k) src)

-- The pivot's column is cleared in every other row.
unfoldable pub clear_column : Bytes → ℕ → ℕ → (rounds ix : ℕ) → Option Bytes
clear_column src k icol zero ix = some src
clear_column src k icol (suc n) ix = if ix == icol then clear_column src k icol n (ix + 1) else do
  let cleared = set src (ix * k + icol) 0
  row ← addmul (row_of cleared k ix) (row_of cleared k icol) (cell src k ix icol) k
  clear_column (copy_at (ix * k) row cleared) k icol n (ix + 1)

-- The pivot's row is divided by the pivot, whose cell becomes the divisor's inverse.
unfoldable pub divide_row : Bytes → ℕ → ℕ → Bytes
divide_row src k icol =
    let p = cell src k icol icol in
    if p == 1 then src else scale_row (inverse p) (set src (icol * k + icol) 1) k icol k 0

-- Whether two lists of bytes are the same.
unfoldable pub same : Bytes → Bytes → Bool
same [] [] = true
same (x ∷ xs) (y ∷ ys) = x == y && same xs ys
same _ _ = false

-- `id_row` with its one in the pivot's column.
abbrev pub unit_row : ℕ → ℕ → Bytes
unit_row k icol = set (replicate k 0) icol 1

-- The matrix with the pivots that were used, the last first.
pub record Gauss : Type 0 where
  pub src : Bytes
  pub ipiv : List ℕ
  pub pivots : List (ℕ × ℕ)

-- How the inversion ends; `gave_up` is its result 1.
pub data Inverted : Type 0 where
  gave_up : Inverted
  inverted : Bytes → Inverted

-- One round of the main loop, for the column `col`; `gave_up` is a return.
pub data Round : Type 0 where
  stops : Round
  goes_on : Gauss → Round

unfoldable pub use_pivot : ℕ → ℕ → ℕ → Gauss → Option Round
use_pivot k irow icol g =
    let src = if irow == icol then g.src else swap_rows g.src k irow icol k 0 in
    let divided = divide_row src k icol in
    if cell src k icol icol == 0 then some stops else do
      cleared ←
          if same (row_of divided k icol) (unit_row k icol)
          then some divided
          else clear_column divided k icol k 0
      some (
          goes_on record {
            src = cleared;
            ipiv = set g.ipiv icol (get_or g.ipiv icol 0 + 1);
            pivots = (irow, icol) ∷ g.pivots;
          })

unfoldable pub eliminate : ℕ → ℕ → Gauss → Option Round
eliminate k col g = elim (find_pivot g.src g.ipiv k col) [
  | absent ↦ some stops
  | singular ↦ some stops
  | pivot irow icol ↦ use_pivot k irow icol g
]

-- The columns are put back in order, from the last pivot on.
unfoldable pub unscramble : ℕ → List (ℕ × ℕ) → Bytes → Bytes
unscramble k [] src = src
unscramble k ((r, c) ∷ rest) src =
    unscramble k rest (if r == c then src else swap_cols src k r c k 0)

unfoldable pub eliminate_all : ℕ → (rounds col : ℕ) → Gauss → Option Inverted
eliminate_all k zero col g = some (inverted (unscramble k g.pivots g.src))
eliminate_all k (suc n) col g = do
  r ← eliminate k col g
  elim r [ stops ↦ some gave_up | goes_on g' ↦ eliminate_all k n (col + 1) g' ]

unfoldable pub invert_mat : Bytes → ℕ → Option Inverted
invert_mat src k = eliminate_all k k 0 record { src = src; ipiv = replicate k 0; pivots = [] }

-- An index out of range is a panic.
unfoldable pub nth {ℓ} : {A : Type ℓ} → List A → ℕ → Option A
nth [] i = none
nth (x ∷ xs) zero = some x
nth (x ∷ xs) (suc i) = nth xs i

-- `INVERSE[i]` with an index from the network.
abbrev pub inverse_of : ℕ → Option ℕ
inverse_of i = if ltb i 256 then some (inverse i) else none

-- Is the column the next of the erased ones?
unfoldable pub is_erased : ℕ → List ℕ → ℕ → ℕ → Option Bool
is_erased nr_fec_blocks erased_blocks erased_idx col =
    if ltb erased_idx nr_fec_blocks
    then nth erased_blocks erased_idx >>= (λ e. some (e == col))
    else some false

-- What the data blocks that are there add to the FEC blocks is taken out, from the column `col` on.
unfoldable pub reduce :
    ℕ → List ℕ → List ℕ → (col erased_idx : ℕ) → List Bytes → List Bytes → Option (List Bytes)
reduce block_size fec_block_nos erased_blocks col erased_idx [] reduced = some reduced
reduce block_size fec_block_nos erased_blocks col erased_idx (src ∷ rest) reduced = do
  erased ← is_erased (length reduced) erased_blocks erased_idx col
  if erased
      then reduce block_size fec_block_nos erased_blocks (col + 1) (erased_idx + 1) rest reduced
      else do
        added ←
            each_row
              (λ j b. do
                blno ← nth fec_block_nos j
                c ← inverse_of (bit_xor (bit_xor blno col) 128)
                addmul b src c block_size)
              0 reduced
        reduce block_size fec_block_nos erased_blocks (col + 1) erased_idx rest added

-- `v[i] = x`; `none` is the panic out of range.
unfoldable pub put {ℓ} : {A : Type ℓ} → List A → ℕ → A → Option (List A)
put xs i x = if ltb i (length xs) then some (set xs i x) else none

unfoldable pub fill_cols : ℕ → ℕ → ℕ → (col : ℕ) → List ℕ → Bytes → Option Bytes
fill_cols k row irow col [] matrix = some matrix
fill_cols k row irow col (icol ∷ rest) matrix = do
  c ← inverse_of (bit_xor irow icol)
  filled ← put matrix (row * k + col) c
  fill_cols k row irow (col + 1) rest filled

unfoldable pub fill_rows : ℕ → List ℕ → (row : ℕ) → List ℕ → Bytes → Option Bytes
fill_rows k erased_blocks row [] matrix = some matrix
fill_rows k erased_blocks row (fec_no ∷ rest) matrix = do
  filled ← fill_cols k row (128 + fec_no) 0 erased_blocks matrix
  fill_rows k erased_blocks (row + 1) rest filled

-- The other columns of a row of the inverse.
unfoldable pub add_cols : ℕ → ℕ → Bytes → ℕ → (col : ℕ) → List Bytes → Bytes → Option Bytes
add_cols block_size k matrix row col [] target = some target
add_cols block_size k matrix row col (b ∷ rest) target = do
  c ← nth matrix (row * k + col)
  added ← addmul target b c block_size
  add_cols block_size k matrix row (col + 1) rest added

-- The erased blocks are computed, from the row `row` of the inverse on.
unfoldable pub restore :
    ℕ → Bytes → List Bytes → (row : ℕ) → List ℕ → List Bytes → Option (List Bytes)
restore block_size matrix reduced row [] data_blocks = some data_blocks
restore block_size matrix reduced row (erased ∷ rest) data_blocks = do
  target ← nth data_blocks erased
  b ← nth reduced 0
  c ← nth matrix (row * length reduced)
  started ← mul target b c block_size
  full ← add_cols block_size (length reduced) matrix row 1 (drop 1 reduced) started
  restore block_size matrix reduced (row + 1) rest (set data_blocks erased full)

-- What a decoding leaves: nothing, where the matrix has no inverse, or the data blocks.
pub data Decoded : Type 0 where
  undecodable : Decoded
  decoded : List Bytes → Decoded

unfoldable pub fec_decode : ℕ → List Bytes → List Bytes → List ℕ → List ℕ → Option Decoded
fec_decode block_size data_blocks fec_blocks fec_block_nos erased_blocks = do
  let k = length fec_blocks
  reduced ← reduce block_size fec_block_nos erased_blocks 0 0 data_blocks fec_blocks
  matrix ← fill_rows k erased_blocks 0 fec_block_nos (replicate (k * k) 0)
  outcome ← invert_mat matrix k
  elim outcome [
    | gave_up ↦ some undecodable
    | inverted m ↦ do
      restored ← restore block_size m reduced 0 erased_blocks data_blocks
      some (decoded restored)
  ]
