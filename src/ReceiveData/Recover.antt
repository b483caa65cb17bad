-- ===== src/ReceiveData/Recover.antt =====
-- `check_slice_complete` and `try_fec_recover` of src/receivedata.rs: what is done when a block has
-- come in. A slice's blocks are dealt to stripes in turn, and each stripe is decoded by itself.
use udpcast_rs.Base.{
  ℕ, zero, suc, ◌+◌, ◌-◌, ◌*◌, ◌/◌, ◌%◌, Bool, not, ◌&&◌, ◌||◌, ◌==◌, Option, none, some, List, [],
  ◌∷◌, Bytes, length, set, take, replicate, ltb, leb, if◌then◌else◌, ◌>>=◌, usize_add,
}
use udpcast_rs.Bitmap.{bit_is_set, set_bit}
use udpcast_rs.Fifo.{Fifo, write_at}
use udpcast_rs.SendData.Answers.{nr_blocks}
use udpcast_rs.ReceiveData.{Slice}
use udpcast_rs.Fifo.{read_at}
use udpcast_rs.Fec.Matrix.{undecodable, decoded, nth, fec_decode}
use udpcast_rs.ReceiveData.Table.{Table, slot, complete_at, place}

-- What a recovery works on.
pub record Recovery : Type 0 where
  pub slice : Slice
  pub fifo : Fifo

-- `while i < blocks { push(i); i += stripes }`: at most `rounds` are pushed, and `blocks` of them
-- are enough.
unfoldable pub stripe_indices : (rounds stripes i blocks : ℕ) → List ℕ
stripe_indices zero stripes i blocks = []
stripe_indices (suc n) stripes i blocks =
    let rest = stripe_indices n stripes (i + stripes) blocks in
    if ltb i blocks then i ∷ rest else []

-- The blocks of a stripe.
unfoldable pub stripe_of : ℕ → (stripe : ℕ) → Slice → List ℕ
stripe_of block_size stripe s =
    let blocks = nr_blocks s.bytes block_size in stripe_indices blocks s.fec_stripes stripe blocks

-- A test of the map; `none` is the panic out of range.
unfoldable pub held : Bytes → ℕ → Option Bool
held map i = if ltb i (8 * length map) then some (bit_is_set i map) else none

-- The positions in the stripe, from `j` on, of the blocks that are not there.
unfoldable pub erased_positions : Bytes → (j : ℕ) → List ℕ → Option (List ℕ)
erased_positions map j [] = some []
erased_positions map j (i ∷ rest) = do
  there ← held map i
  more ← erased_positions map (j + 1) rest
  some (if there then more else j ∷ more)

-- The FEC blocks of the stripe and their numbers in it.
unfoldable pub select_fec :
    (stripes stripe : ℕ) → List ℕ → List Bytes → Option (List ℕ × List Bytes)
select_fec stripes stripe [] blocks = some ([], [])
select_fec stripes stripe (bno ∷ nos) [] =
    if bno % stripes == stripe then none else select_fec stripes stripe nos []
select_fec stripes stripe (bno ∷ nos) (b ∷ blocks) = do
  (sel_nos, sel) ← select_fec stripes stripe nos blocks
  some (if bno % stripes == stripe then (bno / stripes ∷ sel_nos, b ∷ sel) else (sel_nos, sel))

-- The stripe's blocks out of the ring, and zeros for those that are not there.
unfoldable pub load_blocks : ℕ → Recovery → List ℕ → Option (List Bytes)
load_blocks block_size r [] = some []
load_blocks block_size r (i ∷ rest) = do
  b ←
      if bit_is_set i r.slice.retransmit_map
      then read_at r.fifo (place block_size r.slice r.fifo i) block_size
      else some (replicate block_size 0)
  more ← load_blocks block_size r rest
  some (b ∷ more)

-- Block `i` is marked and counted.
unfoldable pub marked : ℕ → Slice → Slice
marked i s = record s {
  retransmit_map = set_bit i s.retransmit_map;
  data_blocks_transferred = usize_add s.data_blocks_transferred 1;
  blocks_transferred = usize_add s.blocks_transferred 1;
}

unfoldable pub put_block : ℕ → Recovery → ℕ → Bytes → Option Recovery
put_block block_size r i b = do
  f ← write_at r.fifo (place block_size r.slice r.fifo i) b
  some record { slice = marked i r.slice; fifo = f }

-- The blocks that were erased go to the ring.
unfoldable pub store_blocks : ℕ → List ℕ → List Bytes → List ℕ → Recovery → Option Recovery
store_blocks block_size indices blocks [] r = some r
store_blocks block_size indices blocks (j ∷ rest) r = do
  i ← nth indices j
  b ← nth blocks j
  r' ← put_block block_size r i b
  store_blocks block_size indices blocks rest r'

unfoldable pub decode_stripe :
    ℕ → List ℕ → List ℕ → List ℕ → List Bytes → Recovery → Option Recovery
decode_stripe block_size indices erased fec_nos fec_sel r = do
  blocks ← load_blocks block_size r indices
  outcome ←
      fec_decode block_size blocks (take (length erased) fec_sel) (take (length erased) fec_nos)
        erased
  elim outcome [ undecodable ↦ some r | decoded ds ↦ store_blocks block_size indices ds erased r ]

-- One stripe: it is left as it is where no block is missing, or too few FEC blocks are there.
unfoldable pub recover_stripe : ℕ → (stripe : ℕ) → Recovery → Option Recovery
recover_stripe block_size stripe r = do
  let indices = stripe_of block_size stripe r.slice
  erased ← erased_positions r.slice.retransmit_map 0 indices
  (fec_nos, fec_sel) ←
      select_fec r.slice.fec_stripes stripe r.slice.fec_block_nos r.slice.fec_blocks
  if length erased == 0 || ltb (length fec_sel) (length erased)
      then some r
      else decode_stripe block_size indices erased fec_nos fec_sel r

unfoldable pub recover_stripes : ℕ → (rounds stripe : ℕ) → Recovery → Option Recovery
recover_stripes block_size zero stripe r = some r
recover_stripes block_size (suc n) stripe r = do
  r' ← recover_stripe block_size stripe r
  recover_stripes block_size n (stripe + 1) r'

-- The slice is complete when it has all its blocks.
unfoldable pub complete_if_full : ℕ → Table → ℕ → Option Table
complete_if_full block_size t i =
    let s = slot t.slices i in
    if leb (nr_blocks s.bytes block_size) s.data_blocks_transferred then complete_at t i else some t

unfoldable pub try_fec_recover : ℕ → Table → ℕ → Option Table
try_fec_recover block_size t i =
    let s = slot t.slices i in
    if s.fec_stripes == 0 then some t else do
      r ← recover_stripes block_size s.fec_stripes 0 record { slice = s; fifo = t.fifo }
      complete_if_full block_size (record t { slices = set t.slices i r.slice; fifo = r.fifo }) i

-- Are there as many FEC blocks as data blocks are missing?
unfoldable pub enough_fec : ℕ → Slice → Bool
enough_fec block_size s =
    ltb 0 s.fec_stripes
    && not (length s.fec_blocks == 0)
    && leb (nr_blocks s.bytes block_size - s.data_blocks_transferred) (length s.fec_blocks)

unfoldable pub check_slice_complete : ℕ → Table → ℕ → Option Table
check_slice_complete block_size t i =
    let s = slot t.slices i in
    if not s.bytes_known || s.bytes == 0
    then some t
    else if leb (nr_blocks s.bytes block_size) s.data_blocks_transferred
    then complete_at t i
    else if enough_fec block_size s
    then try_fec_recover block_size t i
    else some t
