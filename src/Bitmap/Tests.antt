-- ===== src/Bitmap/Tests.antt =====
-- The bitmap's laws at a map of two bytes.
use udpcast_rs.Base.{zero, suc, ◌≡◌, arith, not, ◌&&◌, ◌||◌, ◌==◌, [], ◌∷◌, Bytes}
use udpcast_rs.Bitmap.{bit_is_set, set_bit, clear_bit}
use udpcast_rs.Bitmap.Laws.{IsBytes, bit_is_set-set_bit, bit_is_set-clear_bit}

abbrev map : Bytes
map = 5 ∷ 128 ∷ []

map-IsBytes : IsBytes map
map-IsBytes zero = omega arith
map-IsBytes (suc zero) = omega arith
map-IsBytes (suc (suc i)) = omega arith

bit_is_set-set_bit_example : bit_is_set 15 (set_bit 9 map) ≡ (9 == 15 || bit_is_set 15 map)
bit_is_set-set_bit_example = bit_is_set-set_bit 9 15 map map-IsBytes (omega arith)

bit_is_set-clear_bit_example :
    bit_is_set 15 (clear_bit 15 map) ≡ (not (15 == 15) && bit_is_set 15 map)
bit_is_set-clear_bit_example = bit_is_set-clear_bit 15 15 map map-IsBytes (omega arith)
