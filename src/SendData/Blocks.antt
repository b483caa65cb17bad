-- ===== src/SendData/Blocks.antt =====
-- The packets of a slice's blocks, src/senddata.rs: `append_ring` and `rexmit_slice`. What
-- `send_batch` puts on the wire is the list of the packets.
pub mod Packets
pub mod Resent
mod Tests
use udpcast_rs.Base.{
  ℕ, zero, suc, ◌+◌, ◌-◌, ◌*◌, ◌%◌, ◌^◌, ◌++◌, Bool, true, false, not, ◌&&◌, ◌||◌, ◌==◌, Option,
  none, some, List, [], ◌∷◌, Bytes, min, ltb, leb, if◌then◌else◌, ◌>>=◌, usize_add, usize_sub,
  usize_mul, u32,
}
use udpcast_rs.Bitmap.{bit_is_set, set_bit}
use udpcast_rs.Fifo.{Fifo, slice}
use udpcast_rs.Protocol.{DataBlock}
use udpcast_rs.Protocol.Pack.{pack_data_block}
use udpcast_rs.Statistics
use udpcast_rs.Statistics.{SenderStats}
use udpcast_rs.SendData.{Slice, NetConfig}
use udpcast_rs.SendData.Answers.{nr_blocks}

-- The bytes from `start` on, round the end of the ring, go behind the packet.
unfoldable pub append_ring : Bytes → Fifo → ℕ → ℕ → Option Bytes
append_ring packet f start size = do
  let first = min size (usize_sub f.data_buf_size start)
  head ← slice f.buffer start first
  rest ← if ltb first size then slice f.buffer 0 (size - first) else some []
  some ((packet ++ head) ++ rest)

-- How many bytes block `i` has: a full block, or what is left of the slice.
pub block_bytes : ℕ → Slice → ℕ → ℕ
block_bytes block_size s i =
    if leb s.bytes (usize_mul i block_size)
    then 0
    else min block_size (usize_sub s.bytes (usize_mul i block_size))

pub block_header : Slice → ℕ → DataBlock
block_header s i = record { slice_no = s.slice_no; block_no = i % 2 ^ 16; bytes = u32 s.bytes }

-- Where block `i` starts in the ring.
pub block_start : ℕ → Fifo → Slice → ℕ → ℕ
block_start block_size f s i = usize_add s.base (usize_mul i block_size) % f.data_buf_size

pub data_packet : ℕ → Fifo → Slice → ℕ → Option Bytes
data_packet block_size f s i =
    append_ring (pack_data_block (block_header s i)) f (block_start block_size f s i)
      (block_bytes block_size s i)

-- What the loop of `rexmit_slice` changes.
pub record Resend : Type 0 where
  pub slice : Slice
  pub retransmissions : ℕ
  pub packets : List Bytes

-- Block `i` was asked for, and has not been sent again in this round.
pub wanted : Slice → ℕ → Bool
wanted s i = bit_is_set i s.rxmit_map && not (bit_is_set i s.is_xmitted_map)

-- A block that is not wanted is good; the others are sent twice.
pub rexmit_block : ℕ → Fifo → ℕ → Resend → Option Resend
rexmit_block block_size f i r =
    if not (wanted r.slice i)
    then some (record r {
      slice = record r.slice {
        last_good_block = if ltb r.slice.last_good_block i then i else r.slice.last_good_block;
      };
    })
    else (do
      packet ← data_packet block_size f r.slice i
      some (record {
        slice = record r.slice { is_xmitted_map = set_bit i r.slice.is_xmitted_map };
        retransmissions = u32 (r.retransmissions + 2);
        packets = r.packets ++ (packet ∷ packet ∷ []);
      }))

-- `for i in 0..n`
pub rexmit_blocks : ℕ → Fifo → ℕ → Resend → Option Resend
rexmit_blocks block_size f zero r = some r
rexmit_blocks block_size f (suc n) r =
    rexmit_blocks block_size f n r >>= rexmit_block block_size f n

pub rexmit_slice : ℕ → Fifo → Slice → SenderStats → Option (Slice × SenderStats × List Bytes)
rexmit_slice block_size f s stats = do
  r ←
      rexmit_blocks block_size f (nr_blocks s.bytes block_size)
        (record { slice = s; retransmissions = 0; packets = [] })
  some (
    record r.slice { need_rxmit = false },
    if ltb 0 r.retransmissions
        then Statistics.add_retransmissions stats r.retransmissions
        else stats,
    r.packets,
  )

-- The packets of all blocks of a slice, in order.
pub send_blocks : ℕ → Fifo → Slice → ℕ → Option (List Bytes)
send_blocks block_size f s zero = some []
send_blocks block_size f s (suc n) = do
  before ← send_blocks block_size f s n
  packet ← data_packet block_size f s n
  some (before ++ (packet ∷ []))

pub send_slice : ℕ → Fifo → Slice → Option (List Bytes)
send_slice block_size f s = send_blocks block_size f s (nr_blocks s.bytes block_size)
