-- ===== src/Bitmap/Laws.antt =====
-- A bitmap as a set of numbers: what each operation does to each bit.
use Prim.Native.Nat.{bit_and-bitwise}
use udpcast_rs.Base.{
  get_or-set, ℕ, ◌*◌, ◌/◌, ◌%◌, ◌<◌, ◌≡◌, arith, false, not, ◌&&◌, ◌||◌, ◌==◌, Bytes, length,
  get_or, set, length-set, replicate, get_or-replicate, bit_or, bit_and,
}
use udpcast_rs.Bitmap.{mask, complement, test, bit_is_set, set_bit, clear_bit}
use udpcast_rs.Bitmap.Byte.{test-set, test-clear, masked-lt}

zero-bit_and : (b : ℕ) → bit_and 0 b ≡ 0
zero-bit_and b = bit_and-bitwise 0 b

-- The elements are bytes.
abbrev pub IsBytes : Bytes → Type 0
IsBytes map = (i : ℕ) → get_or map i 0 < 256

set-IsBytes : (map : Bytes) (i v : ℕ) → IsBytes map → v < 256 → IsBytes (set map i v)
set-IsBytes map i v h lt j = ground (arith, get_or-set map i j v 0, h j)

pub set_bit-IsBytes : (bit : ℕ) (map : Bytes) → IsBytes map → IsBytes (set_bit bit map)
unfolding set_bit
set_bit-IsBytes bit map h =
    set-IsBytes map (bit / 8) _ h
      (masked-lt (get_or map (bit / 8) 0) (bit % 8) (h (bit / 8)) (omega arith)).0

pub clear_bit-IsBytes : (bit : ℕ) (map : Bytes) → IsBytes map → IsBytes (clear_bit bit map)
unfolding clear_bit
clear_bit-IsBytes bit map h =
    set-IsBytes map (bit / 8) _ h
      (masked-lt (get_or map (bit / 8) 0) (bit % 8) (h (bit / 8)) (omega arith)).1

pub length-set_bit : (bit : ℕ) (map : Bytes) → length (set_bit bit map) ≡ length map
unfolding set_bit
length-set_bit bit map = length-set map (bit / 8) _

pub length-clear_bit : (bit : ℕ) (map : Bytes) → length (clear_bit bit map) ≡ length map
unfolding clear_bit
length-clear_bit bit map = length-set map (bit / 8) _

-- In a map of bytes, after a bit in range is set, a bit is set if it is that one or was set before.
pub bit_is_set-set_bit :
    (i j : ℕ) (map : Bytes)
    → IsBytes map
    → i < 8 * length map
    → bit_is_set j (set_bit i map) ≡ (i == j || bit_is_set j map)
unfolding bit_is_set set_bit
bit_is_set-set_bit i j map h lt = ground (
  arith,
  length-set map (i / 8) (bit_or (get_or map (i / 8) 0) (mask (i % 8))),
  get_or-set map (i / 8) (j / 8) (bit_or (get_or map (i / 8) 0) (mask (i % 8))) 0,
  test-set (get_or map (i / 8) 0) (i % 8) (j % 8) (h (i / 8)),
)

-- In a map of bytes, after a bit in range is cleared, a bit is set if it was set before and is not
-- that one.
pub bit_is_set-clear_bit :
    (i j : ℕ) (map : Bytes)
    → IsBytes map
    → i < 8 * length map
    → bit_is_set j (clear_bit i map) ≡ (not (i == j) && bit_is_set j map)
unfolding bit_is_set clear_bit
bit_is_set-clear_bit i j map h lt = ground (
  arith,
  length-set map (i / 8) (bit_and (get_or map (i / 8) 0) (complement (mask (i % 8)))),
  get_or-set map (i / 8) (j / 8) (bit_and (get_or map (i / 8) 0) (complement (mask (i % 8)))) 0,
  test-clear (get_or map (i / 8) 0) (i % 8) (j % 8) (h (i / 8)),
)

test-zero : (i : ℕ) → test 0 i ≡ false
unfolding test
test-zero i = rw zero-bit_and

pub bit_is_set-zeros : (n j : ℕ) → bit_is_set j (replicate n 0) ≡ false
unfolding bit_is_set
bit_is_set-zeros n j = ground (arith, get_or-replicate {A = ℕ} n (j / 8) 0, test-zero (j % 8))

pub zeros-IsBytes : (n : ℕ) → IsBytes (replicate n 0)
zeros-IsBytes n i = ground (arith, get_or-replicate {A = ℕ} n i 0)
