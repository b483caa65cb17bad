-- ===== src/SendData/Blocks/Tests.antt =====
-- A slice of two blocks in a small ring, of which the second was asked for.
use udpcast_rs.Base.{◌≡◌, refl, arith, true, some, [], ◌∷◌, ◌++◌, List, Bytes}
use udpcast_rs.Bitmap.{set_bit}
use udpcast_rs.Bitmap.Laws.{zeros-IsBytes}
use udpcast_rs.Fifo.{Fifo, slice, read_at}
use udpcast_rs.Fifo.Ring.{IsValid}
use udpcast_rs.Produconsum
use udpcast_rs.Protocol.Pack.{pack_data_block, unpack_data_block}
use udpcast_rs.Statistics
use udpcast_rs.Statistics.{SenderStats}
use udpcast_rs.SendData.{Slice, new_slice, no_bits, xmitted}
use udpcast_rs.SendData.Blocks.{
  append_ring, block_bytes, block_header, block_start, data_packet, rexmit_slice,
}
use udpcast_rs.SendData.Blocks.Packets.{data_packet_lem}
use udpcast_rs.SendData.Blocks.Resent.{IsResent, rexmit_slice_lem}

abbrev ring : Fifo
ring = record {
  buffer = 10 ∷ 11 ∷ 12 ∷ 13 ∷ 14 ∷ [];
  data_buf_size = 5;
  free_mem_queue = Produconsum.new 5;
  filled = Produconsum.new 5;
}

ring-IsValid : IsValid ring
ring-IsValid = record { whole = refl; small = omega arith }

-- Block 0 is 14 and 10, block 1 is 11.
abbrev lost : Slice
lost = record (new_slice 0) {
  base = 4;
  slice_no = 7;
  bytes = 3;
  state = xmitted;
  rxmit_map = set_bit 1 no_bits;
  need_rxmit = true;
}

round_the_end : append_ring (1 ∷ []) ring 4 2 ≡ some (1 ∷ 14 ∷ 10 ∷ [])
unfolding append_ring slice
round_the_end = refl

abbrev packet : Bytes
packet = 0 ∷ 8 ∷ 0 ∷ 0 ∷ 0 ∷ 0 ∷ 0 ∷ 7 ∷ 0 ∷ 1 ∷ 0 ∷ 0 ∷ 0 ∷ 0 ∷ 0 ∷ 3 ∷ 11 ∷ []

block_1 : data_packet 2 ring lost 1 ≡ some packet
unfolding data_packet append_ring slice block_bytes block_header block_start pack_data_block
    new_slice
block_1 = refl

data_packet_lem_example :
    (b : Bytes) × (read_at ring (block_start 2 ring lost 0) (block_bytes 2 lost 0) ≡ some b)
    × (data_packet 2 ring lost 0 ≡ some (pack_data_block (block_header lost 0) ++ b))
    × (unpack_data_block (pack_data_block (block_header lost 0) ++ b) ≡ some (block_header lost 0))
data_packet_lem_example =
    data_packet_lem 2 ring lost 0 ring-IsValid (omega arith) (omega arith) (omega arith)

rexmit_slice_lem_example :
    (s : Slice) × (stats : SenderStats) × (packets : List Bytes) × (rexmit_slice 2 ring lost
        Statistics.new
      ≡ some (s, stats, packets))
    × IsResent 2 ring lost s packets
unfolding new_slice
rexmit_slice_lem_example =
    rexmit_slice_lem 2 ring lost Statistics.new ring-IsValid (omega arith) (omega arith)
      (omega arith) (zeros-IsBytes 128) refl
