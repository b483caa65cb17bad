-- ===== src/Bitmap/Sizes.antt =====
-- The bitmaps of 128 bytes with a counter of their members, which both the sender and the receiver
-- keep.
use udpcast_rs.Base.{
  replicate, ℕ, ◌+◌, ◌<◌, ◌≡◌, refl, sym, arith, Bool, true, false, Bytes, length, count, count_add,
  count_remove, count-le, count-zero, usize_add, usize_sub,
}
use udpcast_rs.Bitmap.{bit_is_set, set_bit, clear_bit}
use udpcast_rs.Bitmap.Laws.{
  IsBytes, set_bit-IsBytes, clear_bit-IsBytes, length-set_bit, length-clear_bit, bit_is_set-set_bit,
  bit_is_set-clear_bit, bit_is_set-zeros, zeros-IsBytes,
}

-- The members of the set that a bitmap of 1024 bits stands for.
abbrev pub has_bit : Bytes → ℕ → Bool
has_bit bits j = bit_is_set j bits

-- A bitmap and the number of its members.
pub record IsCount (bits : Bytes) (n : ℕ) : Type 0 where
  pub bytes : IsBytes bits
  pub whole : length bits ≡ 128
  pub exact : n ≡ count (has_bit bits) 1024

pub add-IsCount :
    (bits : Bytes) (n i : ℕ)
    → IsCount bits n
    → i < 1024
    → bit_is_set i bits ≡ false
    → IsCount (set_bit i bits) (usize_add n 1)
add-IsCount bits n i c lt new = record {
  bytes = set_bit-IsBytes i bits c.bytes;
  whole = omega (arith, length-set_bit i bits, c.whole);
  exact = omega (arith, c.exact, count-le (has_bit bits) 1024, more);
}
  where
    more : count (has_bit (set_bit i bits)) 1024 ≡ count (has_bit bits) 1024 + 1
    more =
        count_add (has_bit bits) (has_bit (set_bit i bits)) i 1024
          (λ j. bit_is_set-set_bit i j bits c.bytes (omega (arith, c.whole))) new lt

pub remove-IsCount :
    (bits : Bytes) (n i : ℕ)
    → IsCount bits n
    → i < 1024
    → bit_is_set i bits ≡ true
    → IsCount (clear_bit i bits) (usize_sub n 1)
remove-IsCount bits n i c lt old = record {
  bytes = clear_bit-IsBytes i bits c.bytes;
  whole = omega (arith, length-clear_bit i bits, c.whole);
  exact = omega (arith, c.exact, count-le (has_bit bits) 1024, fewer);
}
  where
    fewer : count (has_bit (clear_bit i bits)) 1024 + 1 ≡ count (has_bit bits) 1024
    fewer =
        count_remove (has_bit bits) (has_bit (clear_bit i bits)) i 1024
          (λ j. bit_is_set-clear_bit i j bits c.bytes (omega (arith, c.whole))) old lt

pub zeros-IsCount : IsCount (replicate 128 0) 0
zeros-IsCount = record {
  bytes = zeros-IsBytes 128;
  whole = refl;
  exact = sym (count-zero (has_bit (replicate 128 0)) 1024 (λ j lt. bit_is_set-zeros 128 j));
}
