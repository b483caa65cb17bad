-- ===== src/Fec.antt =====
-- The Reed-Solomon coder, src/fec.rs: the tables of the field of 256 elements, and the operations
-- on blocks of bytes. A table that a `const fn` fills is a list; `GF_MUL_TABLE` is the function
-- that gives its entries, with the row and the column that are zeroed last tested first.
pub mod Tables
pub mod Field
pub mod Product
pub mod Matrix
pub mod Blocks
pub mod Coefficients
pub mod Encoding
pub mod Reduction
pub mod Erasure
mod Tests
use udpcast_rs.Base.{
  ℕ, zero, suc, ◌+◌, ◌-◌, ◌*◌, ◌/◌, ◌%◌, ◌&&◌, ◌||◌, ◌++◌, ◌>>=◌, length, drop, ◌==◌, ltb, leb,
  if◌then◌else◌, Option, none, some, List, [], ◌∷◌, Bytes, get_or, set, replicate, bit_and, bit_xor,
}

-- `GF_BITS`, `GF_SIZE`, `PRIME`
abbrev pub gf_bits : ℕ
gf_bits = 8

abbrev pub gf_size : ℕ
gf_size = 255

abbrev pub prime : ℕ
prime = 0x11d

-- The tables of powers and of logarithms while they are filled.
pub record ExpLog : Type 0 where
  pub exp : List ℕ
  pub log : List ℕ

-- `x << 1` of a byte
abbrev pub shl : ℕ → ℕ
shl x = x * 2 % 256

-- One round of the first loop of `build_exp_log`, which has the powers below `GF_BITS`.
abbrev pub low_power : ℕ → ℕ → ExpLog → ExpLog
low_power i mask t =
    let exp = set t.exp i mask in
    record {
      exp =
          if bit_and prime mask == 0
          then exp
          else set exp gf_bits (bit_xor (get_or exp gf_bits 0) mask);
      log = set t.log mask i;
    }

abbrev pub low_powers : (rounds i mask : ℕ) → ExpLog → ExpLog
low_powers zero i mask t = t
low_powers (suc n) i mask t = low_powers n (i + 1) (shl mask) (low_power i mask t)

-- The next power: twice the one before it, modulo the polynomial.
abbrev pub next_power : ℕ → ℕ → ℕ
next_power top x = if leb 128 x then bit_xor top (shl (bit_xor x 128)) else shl x

abbrev pub high_power : ℕ → ExpLog → ExpLog
high_power i t =
    let x = next_power (get_or t.exp gf_bits 0) (get_or t.exp (i - 1) 0) in
    record { exp = set t.exp i x; log = set t.log x i }

abbrev pub high_powers : (rounds i : ℕ) → ExpLog → ExpLog
high_powers zero i t = t
high_powers (suc n) i t = high_powers n (i + 1) (high_power i t)

unfoldable pub build_exp_log : ExpLog
build_exp_log =
    let low =
      low_powers gf_bits 0 1
        record { exp = set (replicate 256 0) gf_bits 0; log = replicate 256 0 } in
    let high =
      high_powers (gf_size - (gf_bits + 1)) (gf_bits + 1)
        (record low { log = set low.log (get_or low.exp gf_bits 0) gf_bits }) in
    record high { log = set high.log 0 gf_size }

-- `GF_EXP[k]`, `GF_LOG[x]`
unfoldable pub gf_exp : ℕ → ℕ
gf_exp k = get_or build_exp_log.exp k 0

unfoldable pub gf_log : ℕ → ℕ
gf_log x = get_or build_exp_log.log x 0

-- The entries of `build_inverse` from 2 on.
unfoldable pub inverses : (rounds i : ℕ) → List ℕ
inverses zero i = []
inverses (suc n) i = gf_exp (gf_size - gf_log i) ∷ inverses n (i + 1)

unfoldable pub build_inverse : List ℕ
build_inverse = 0 ∷ 1 ∷ inverses 254 2

-- `INVERSE[i]`
unfoldable pub inverse : ℕ → ℕ
inverse i = get_or build_inverse i 0

-- `GF_MUL_TABLE[i * 256 + j]`
unfoldable pub build_mul : ℕ → ℕ → ℕ
build_mul i j = if i == 0 || j == 0 then 0 else gf_exp ((gf_log i + gf_log j) % gf_size)

unfoldable pub gf_mul : ℕ → ℕ → ℕ
gf_mul x y = build_mul ((x * 256 + y) / 256) ((x * 256 + y) % 256)

-- The loops over the first `sz` bytes; `none` is the panic of an index out of range.
unfoldable pub addmul_loop : ℕ → ℕ → Bytes → Bytes → Option Bytes
addmul_loop c zero dst src = some dst
addmul_loop c (suc n) (d ∷ ds) (s ∷ ss) = do
  rest ← addmul_loop c n ds ss
  some (bit_xor d (gf_mul c s) ∷ rest)
addmul_loop c (suc n) _ _ = none

unfoldable pub addmul : Bytes → Bytes → ℕ → ℕ → Option Bytes
addmul dst src c sz = if c == 0 then some dst else addmul_loop c sz dst src

unfoldable pub mul_loop : ℕ → ℕ → Bytes → Bytes → Option Bytes
mul_loop c zero dst src = some dst
mul_loop c (suc n) (d ∷ ds) (s ∷ ss) = do rest ← mul_loop c n ds ss; some (gf_mul c s ∷ rest)
mul_loop c (suc n) _ _ = none

-- `dst[..sz].fill(0)`
unfoldable pub fill_zero : ℕ → Bytes → Option Bytes
fill_zero sz dst = if leb sz (length dst) then some (replicate sz 0 ++ drop sz dst) else none

unfoldable pub mul : Bytes → Bytes → ℕ → ℕ → Option Bytes
mul dst src c sz = if c == 0 then fill_zero sz dst else mul_loop c sz dst src

-- A loop over the blocks, with their numbers from `row` on.
abbrev pub each_row : (ℕ → Bytes → Option Bytes) → ℕ → List Bytes → Option (List Bytes)
each_row change row [] = some []
each_row change row (b ∷ bs) = do
  b' ← change row b
  rest ← each_row change (row + 1) bs
  some (b' ∷ rest)

-- The data blocks from `block_no` on, each added to every FEC block.
unfoldable pub encode_rest : ℕ → ℕ → List Bytes → List Bytes → Option (List Bytes)
encode_rest block_size block_no [] fec_blocks = some fec_blocks
encode_rest block_size block_no (data_block ∷ rest) fec_blocks = do
  added ←
      each_row (λ row b. addmul b data_block (inverse (bit_xor row (128 + block_no))) block_size) 0
        fec_blocks
  encode_rest block_size (block_no + 1) rest added

unfoldable pub encode_blocks : ℕ → List Bytes → List Bytes → Option (List Bytes)
encode_blocks block_size [] fec_blocks = some fec_blocks
encode_blocks block_size (data_block ∷ rest) fec_blocks = do
  started ← each_row (λ row b. mul b data_block (inverse (bit_xor 128 row)) block_size) 0 fec_blocks
  encode_rest block_size 1 rest started

-- `fec_encode`; `none` is a failed assertion or a panic.
unfoldable pub fec_encode : ℕ → List Bytes → List Bytes → Option (List Bytes)
fec_encode block_size data_blocks fec_blocks =
    if leb (length data_blocks) 128 && leb (length fec_blocks) 128
    then encode_blocks block_size data_blocks fec_blocks
    else none
