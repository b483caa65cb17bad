-- ===== src/ReceiveData/Blocks.antt =====
-- `process_data_block` and `process_fec_block` of src/receivedata.rs: what a block that arrives does
-- to the table of slices.
use udpcast_rs.Base.{
  ℕ, ◌^◌, Bool, true, not, ◌&&◌, ◌||◌, ◌==◌, Option, none, some, List, [], ◌∷◌, ◌++◌, Bytes, length,
  set, take, min, ltb, leb, if◌then◌else◌, ◌>>=◌, usize_add,
}
use udpcast_rs.Bitmap.{bit_is_set}
use udpcast_rs.Produconsum.{Wakeup}
use udpcast_rs.Protocol.{DataBlock, FecBlock}
use udpcast_rs.ReceiveData.{Slice, is_finished}
use udpcast_rs.ReceiveData.Table.{
  Table, is_free, slot, find_slice, no_slot, waiting, opened, new_slice, as_usize, Step, blocked,
  next, stepped,
}
use udpcast_rs.ReceiveData.Recover.{put_block, check_slice_complete}

-- The size of a slice that a block tells of; 0 tells nothing.
unfoldable pub learn_bytes : ℕ → Slice → Slice
learn_bytes bytes s =
    if bytes == 0 then s else record s { bytes = as_usize bytes; bytes_known = true }

-- The block goes to its place in the ring and is marked.
unfoldable pub store_block : ℕ → Table → ℕ → DataBlock → Bytes → Option Table
store_block block_size t i msg bytes = do
  r ←
      put_block block_size record { slice = learn_bytes msg.bytes (slot t.slices i); fifo = t.fifo }
        msg.block_no (take (min (length bytes) block_size) bytes)
  some (record t { slices = set t.slices i r.slice; fifo = r.fifo })

-- What is done with a block of a slice that is in the table.
unfoldable pub take_block : ℕ → Table → ℕ → DataBlock → Bytes → Option Table
take_block block_size t i msg bytes =
    let s = slot t.slices i in
    if is_free s.state || is_finished s.state
    then some t
    else if leb 1024 msg.block_no
    then some t
    else if bit_is_set msg.block_no s.retransmit_map
    then some t
    else (store_block block_size t i msg bytes >>= (λ t'. check_slice_complete block_size t' i))

unfoldable pub process_data_block : ℕ → Table → List Wakeup → DataBlock → Bytes → Step
process_data_block block_size t wakeups msg bytes =
    elim (find_slice t.slices t.current_slice msg.slice_no) [
      | some i ↦ stepped (take_block block_size t i msg bytes)
      | none ↦ elim (new_slice t msg.slice_no block_size wakeups) [
        | no_slot ↦ next t
        | waiting ↦ blocked
        | opened i t' ↦
            stepped (take_block block_size (record t' { current_slice = some i }) i msg bytes)
      ]
    ]

-- A is_positive number of stripes, of an i32.
abbrev is_positive : ℕ → Bool
is_positive x = ltb 0 x && ltb x (2 ^ 31)

-- A FEC block is kept with its number, and may give the slice its size and its stripes.
unfoldable pub keep_fec : Slice → FecBlock → Bytes → Slice
keep_fec s msg bytes =
    let known = not (msg.bytes == 0) && not s.bytes_known in
    record s {
      bytes = if known then as_usize msg.bytes else s.bytes;
      bytes_known = known || s.bytes_known;
      fec_stripes = if is_positive msg.stripes then msg.stripes else s.fec_stripes;
      fec_block_nos = s.fec_block_nos ++ msg.block_no ∷ [];
      fec_blocks = s.fec_blocks ++ bytes ∷ [];
      blocks_transferred = usize_add s.blocks_transferred 1;
    }

unfoldable pub take_fec : ℕ → Table → ℕ → FecBlock → Bytes → Option Table
take_fec block_size t i msg bytes =
    let s = slot t.slices i in
    if is_finished s.state
    then some t
    else check_slice_complete block_size
        (record t { slices = set t.slices i (keep_fec s msg bytes) }) i

unfoldable pub process_fec_block : ℕ → Table → List Wakeup → FecBlock → Bytes → Step
process_fec_block block_size t wakeups msg bytes = elim (find_slice t.slices none msg.slice_no) [
  | some i ↦ stepped (take_fec block_size t i msg bytes)
  | none ↦ elim (new_slice t msg.slice_no block_size wakeups) [
    | no_slot ↦ next t
    | waiting ↦ blocked
    | opened i t' ↦ stepped (take_fec block_size t' i msg bytes)
  ]
]
