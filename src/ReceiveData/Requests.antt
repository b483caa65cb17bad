-- ===== src/ReceiveData/Requests.antt =====
-- `process_reqack` of src/receivedata.rs: the answer to the sender's request for acknowledgement.
use udpcast_rs.Base.{
  ℕ, zero, suc, ◌*◌, ◌>>=◌, length, true, false, Option, none, some, List, Bytes, set, replicate,
  ltb, leb, if◌then◌else◌,
}
use udpcast_rs.Bitmap.{set_bit}
use udpcast_rs.ReceiveData.Recover.{held}
use udpcast_rs.Produconsum.{Wakeup}
use udpcast_rs.Protocol.{Reqack}
use udpcast_rs.Protocol.Pack.{pack_ok, pack_retransmit}
use udpcast_rs.SendData.Answers.{nr_blocks}
use udpcast_rs.ReceiveData.{Slice, is_completed}
use udpcast_rs.ReceiveData.Table.{
  Table, slot, find_slice, no_slot, waiting, opened, new_slice, complete_at, as_usize, answer, Step,
  blocked, next, stepped,
}

-- The blocks below `n` that have arrived; `none` is the panic of an index out of range of one of
-- the two maps.
unfoldable pub have_map : Bytes → ℕ → Option Bytes
have_map map zero = some (replicate 128 0)
have_map map (suc i) = do
  rest ← have_map map i
  there ← held map i
  if there then (if ltb i (8 * length rest) then some (set_bit i rest) else none) else some rest

-- The size of the slice that a REQACK tells.
unfoldable pub told : Reqack → Slice → Slice
told msg s = record s { bytes = as_usize msg.bytes; bytes_known = true }

-- A REQACK for a slice of the table.
unfoldable pub answer_reqack : ℕ → Table → ℕ → Reqack → Option Table
answer_reqack block_size t i msg =
    let s = told msg (slot t.slices i) in
    let t' = record t { slices = set t.slices i s } in
    let blocks = nr_blocks s.bytes block_size in
    if leb blocks s.data_blocks_transferred
    then complete_at (answer t' (pack_ok (record { slice_no = msg.slice_no }))) i
    else (have_map s.retransmit_map blocks >>= (λ map. some (
        answer t'
          (pack_retransmit (record { slice_no = msg.slice_no; rxmit = msg.rxmit; map = map })))))

-- A slice that has been delivered is answered with OK; one that was never seen is opened.
unfoldable pub process_reqack : ℕ → Table → List Wakeup → Reqack → Step
process_reqack block_size t wakeups msg = elim (find_slice t.slices none msg.slice_no) [
  | some i ↦ stepped (answer_reqack block_size t i msg)
  | none ↦
      let ok = pack_ok (record { slice_no = msg.slice_no }) in
      elim (is_completed t.client.completed_slices (as_usize msg.slice_no)) [
        | true ↦ next (answer t ok)
        | false ↦ elim (new_slice t msg.slice_no block_size wakeups) [
          | no_slot ↦ next (answer t ok)
          | waiting ↦ blocked
          | opened i t' ↦ stepped (answer_reqack block_size t' i msg)
        ]
      ]
]
