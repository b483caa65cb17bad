-- ===== src/Bitmap.antt =====
-- The bitmaps of participants and of blocks: `bit_is_set`, `set_bit` and `clear_bit` of
-- src/participants.rs, which src/senddata.rs and src/receivedata.rs repeat on their arrays. A
-- byte is a number below 256.
pub mod Byte
pub mod Laws
pub mod Sizes
pub mod Union
mod Tests
use udpcast_rs.Base.{
  ℕ, ◌-◌, ◌/◌, ◌%◌, ◌^◌, Bool, false, not, ◌==◌, ltb, if◌then◌else◌, Bytes, length, get_or, set,
  bit_and, bit_or,
}

-- `1 << i` of a byte, and `!x`
abbrev pub mask : ℕ → ℕ
mask i = 2 ^ i

abbrev pub complement : ℕ → ℕ
complement x = 255 - x

-- `byte & (1 << i) != 0`
unfoldable pub test : ℕ → ℕ → Bool
test byte i = not (bit_and byte (mask i) == 0)

unfoldable pub bit_is_set : ℕ → Bytes → Bool
bit_is_set bit map =
    if ltb (bit / 8) (length map) then test (get_or map (bit / 8) 0) (bit % 8) else false

-- A write past the end is skipped, as `set` does.
unfoldable pub set_bit : ℕ → Bytes → Bytes
set_bit bit map = set map (bit / 8) (bit_or (get_or map (bit / 8) 0) (mask (bit % 8)))

unfoldable pub clear_bit : ℕ → Bytes → Bytes
clear_bit bit map =
    set map (bit / 8) (bit_and (get_or map (bit / 8) 0) (complement (mask (bit % 8))))
