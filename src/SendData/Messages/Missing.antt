-- ===== src/SendData/Messages/Missing.antt =====
-- What `request_blocks` adds to the blocks that are sent again: those that the receiver lacks.
use udpcast_rs.Base.{
  ℕ, zero, suc, ◌*◌, ◌/◌, ◌%◌, ◌<◌, ◌≡◌, refl, arith, not, ◌||◌, [], ◌∷◌, Bytes, length, bit_or,
  get_or,
}
use udpcast_rs.Bitmap.{complement, bit_is_set}
use udpcast_rs.Bitmap.Laws.{IsBytes}
use udpcast_rs.Bitmap.Union.{test-bit_or, test-complement}
use udpcast_rs.SendData.{Slice}
use udpcast_rs.SendData.Messages.{merge_missing, request_blocks}

length-merge_missing : (r m : Bytes) → length r ≡ length m → length (merge_missing r m) ≡ length r
unfolding merge_missing
length-merge_missing [] m e = refl
length-merge_missing (x ∷ r) [] e = refl
length-merge_missing (x ∷ r) (y ∷ m) e = omega (arith, length-merge_missing r m (omega (arith, e)))

get_or-merge_missing :
    (r m : Bytes) (i : ℕ)
    → length r ≡ length m
    → i < length r
    → get_or (merge_missing r m) i 0 ≡ bit_or (get_or r i 0) (complement (get_or m i 0))
unfolding merge_missing
get_or-merge_missing [] m i e lt = absurd (omega arith)
get_or-merge_missing (x ∷ r) [] i e lt = absurd (omega (arith, e))
get_or-merge_missing (x ∷ r) (y ∷ m) zero e lt = refl
get_or-merge_missing (x ∷ r) (y ∷ m) (suc i) e lt =
    get_or-merge_missing r m i (omega (arith, e)) (omega (arith, lt))

-- In maps of the same length, a block joins if the receiver's map lacks it.
pub bit_is_set-merge_missing :
    (r m : Bytes) (j : ℕ)
    → length r ≡ length m
    → IsBytes m
    → j < 8 * length r
    → bit_is_set j (merge_missing r m) ≡ (bit_is_set j r || not (bit_is_set j m))
unfolding bit_is_set
bit_is_set-merge_missing r m j e b lt = ground (
  arith,
  e,
  length-merge_missing r m e,
  get_or-merge_missing r m (j / 8) e (omega (arith, lt)),
  test-bit_or (get_or r (j / 8) 0) (complement (get_or m (j / 8) 0)) (j % 8),
  test-complement (get_or m (j / 8) 0) (j % 8) (b (j / 8)) (omega arith),
)

pub bit_is_set-request_blocks :
    (s : Slice) (m : Bytes) (j : ℕ)
    → length s.rxmit_map ≡ length m
    → IsBytes m
    → j < 8 * length m
    → bit_is_set j (request_blocks m s).rxmit_map
      ≡ (bit_is_set j s.rxmit_map || not (bit_is_set j m))
unfolding request_blocks
bit_is_set-request_blocks s m j e b lt =
    bit_is_set-merge_missing s.rxmit_map m j e b (omega (arith, e, lt))
