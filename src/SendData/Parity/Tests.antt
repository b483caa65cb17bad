-- ===== src/SendData/Parity/Tests.antt =====
-- A slice with one FEC block of two bytes, and the theorems at it.
use udpcast_rs.Base.{
  ℕ, zero, suc, false, ◌+◌, ◌*◌, arith, refl, ◌≡◌, ◌<◌, ◌++◌, some, List, [], ◌∷◌, Bytes, length,
  u32, get_or,
}
use udpcast_rs.Fec.Blocks.{IsBlock}
use udpcast_rs.Fec.Encoding.{parities}
use udpcast_rs.Fifo.{Fifo}
use udpcast_rs.Produconsum.{Produconsum}
use udpcast_rs.SendData.Parity.Writing.{IsRoom}
use udpcast_rs.SendData.Parity.Encoded.{data_of, IsStripe}
use udpcast_rs.SendData.Parity.Reading.{IsSource}
use udpcast_rs.SendData.Parity.Coding.{fec_encode_slice_lem}
use udpcast_rs.Fec.Matrix.{nth}
use udpcast_rs.Protocol.Pack.{pack_fec_block, unpack_fec_block}
use udpcast_rs.SendData.{Slice, new_slice}
use udpcast_rs.SendData.Parity.{FecConfig, fec_header, send_fec_blocks, fec_encode_slice}
use udpcast_rs.SendData.Parity.Regions.{region}
use udpcast_rs.SendData.Parity.Packets.{send_fec_blocks_lem}

abbrev config : FecConfig
config = record { block_size = 2; fec_stripes = 1; fec_redundancy = 1 }

abbrev slice : Slice
slice = record (new_slice 2) { slice_no = 3; bytes = 4; fec_data = 7 ∷ 8 ∷ [] }

send_fec_blocks_lem_example :
    (ps : List Bytes) × (send_fec_blocks config slice ≡ some ps)
    × (length ps ≡ 1)
    × ((i : ℕ)
        → i < 1
        → (p : Bytes) × (nth ps i ≡ some p)
          × (p ≡ pack_fec_block (fec_header config slice i) ++ region config slice.fec_data i)
          × (length (region config slice.fec_data i) ≡ 2)
          × (unpack_fec_block p
              ≡ some (record { stripes = 1; slice_no = 3; block_no = i; bytes = u32 4 })))
unfolding new_slice
send_fec_blocks_lem_example =
    send_fec_blocks_lem config slice 1 refl (omega arith) (omega arith) refl (omega arith)
      (omega arith)

-- A ring of four bytes, which are the two blocks of the slice.
abbrev queue : Produconsum
queue = record { size = 4; produced = 0; consumed = 0; at_end = false; consumer_waiting = false }

abbrev ring : Fifo
ring = record {
  buffer = 1 ∷ 2 ∷ 3 ∷ 4 ∷ [];
  data_buf_size = 4;
  free_mem_queue = queue;
  filled = queue;
}

source : IsSource 2 ring
source = record {
  valid = record { whole = refl; small = omega arith };
  some_bytes = omega arith;
  holds_block = omega arith;
  bytes = at;
}
  where
    at : (k : ℕ) → get_or (1 ∷ 2 ∷ 3 ∷ 4 ∷ []) k 0 < 256
    at zero = omega arith
    at (suc zero) = omega arith
    at (suc (suc zero)) = omega arith
    at (suc (suc (suc zero))) = omega arith
    at (suc (suc (suc (suc k)))) = omega arith

room : IsRoom config 1 slice.fec_data
unfolding new_slice
room = record { whole = refl; blocks = λ i lt. at i lt }
  where
    at : (i : ℕ) → i < 1 → IsBlock 2 (region config (7 ∷ 8 ∷ []) i)
    at zero lt = (omega arith, (omega arith, tt))
    at (suc i) lt = absurd (omega arith)

fec_encode_slice_lem_example :
    (d : Bytes) × (fec_encode_slice config ring slice ≡ some (record slice { fec_data = d }))
    × (length d ≡ 2)
    × ((a : ℕ)
        → a < 1
        → (ds : List Bytes) × (data_of config ring slice a ≡ some ds)
          × IsStripe 2 ds
          × ((r : ℕ) → r < 1 → nth (parities 2 ds 1 0) r ≡ some (region config d (a + r * 1))))
unfolding new_slice
fec_encode_slice_lem_example =
    fec_encode_slice_lem config ring slice 1 refl (omega arith) (omega arith) (omega arith)
      (omega arith) (omega arith) source room
