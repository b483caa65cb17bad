-- ===== src/SendData/Parity.antt =====
-- The sender's FEC blocks, src/senddata.rs: `fec_encode_slice` computes them when a slice is filled,
-- and `send_fec_blocks` sends them behind it.
pub mod Coding
pub mod Encoded
pub mod Packets
pub mod Reading
pub mod Regions
pub mod Writing
mod Tests
use udpcast_rs.Base.{
  ℕ, zero, suc, ◌+◌, ◌-◌, ◌*◌, ◌/◌, ◌%◌, ◌^◌, ◌++◌, Bool, true, false, not, ◌&&◌, ◌||◌, ◌==◌,
  Option, none, some, List, [], ◌∷◌, Bytes, length, take, drop, replicate, copy_at, min, ltb, leb,
  if◌then◌else◌, ◌>>=◌, usize_add, usize_sub, usize_mul, u32,
}
use udpcast_rs.Fec.{fec_encode}
use udpcast_rs.Fec.Matrix.{nth}
use udpcast_rs.Fifo.{Fifo}
use udpcast_rs.Protocol.{FecBlock}
use udpcast_rs.Protocol.Pack.{pack_fec_block}
use udpcast_rs.SendData.{Slice}
use udpcast_rs.SendData.Answers.{nr_blocks}
use udpcast_rs.SendData.Blocks.{append_ring}
use udpcast_rs.ReceiveData.Recover.{stripe_indices}

-- The fields of `NetConfig` for FEC.
pub record FecConfig : Type 0 where
  pub block_size : ℕ
  pub fec_stripes : ℕ
  pub fec_redundancy : ℕ

-- The `n` bytes from `start` on, one by one round the ring.
unfoldable pub bytes_round : Fifo → (n start : ℕ) → Option Bytes
bytes_round f zero start = some []
bytes_round f (suc n) start = do
  b ← nth f.buffer (start % f.data_buf_size)
  rest ← bytes_round f n (start + 1)
  some (b ∷ rest)

-- Where block `i` of the slice starts in the ring.
abbrev pub block_place : ℕ → Fifo → Slice → ℕ → ℕ
block_place block_size f s i = usize_add s.base (usize_mul i block_size) % f.data_buf_size

-- A block as the encoder takes it: the last one, if it is short, is filled up with zeros.
unfoldable pub encoded_block : ℕ → Fifo → Slice → ℕ → Option Bytes
encoded_block block_size f s i =
    let left_over = s.bytes % block_size in
    if i + 1 == nr_blocks s.bytes block_size && ltb 0 left_over
    then (bytes_round f left_over (block_place block_size f s i)
        >>= (λ b. some (b ++ replicate (block_size - left_over) 0)))
    else append_ring [] f (block_place block_size f s i) block_size

unfoldable pub encoded_blocks : ℕ → Fifo → Slice → List ℕ → Option (List Bytes)
encoded_blocks block_size f s [] = some []
encoded_blocks block_size f s (i ∷ rest) = do
  b ← encoded_block block_size f s i
  more ← encoded_blocks block_size f s rest
  some (b ∷ more)

-- Where FEC block `b` starts in `fec_data`, and its bytes there; `none` is a split out of range.
abbrev pub fec_offset : FecConfig → ℕ → ℕ
fec_offset c b = usize_mul b c.block_size

unfoldable pub fec_region : FecConfig → Bytes → ℕ → Option Bytes
fec_region c fec_data b =
    let end = min (usize_add (fec_offset c b) c.block_size) (length fec_data) in
    if leb (fec_offset c b) end
    then some (take (end - fec_offset c b) (drop (fec_offset c b) fec_data))
    else none

-- The regions of a stripe: FEC blocks `b`, `b + stripes` and so on.
unfoldable pub fec_regions : FecConfig → Bytes → (redundancy b : ℕ) → Option (List Bytes)
fec_regions c fec_data zero b = some []
fec_regions c fec_data (suc n) b = do
  region ← fec_region c fec_data b
  rest ← fec_regions c fec_data n (b + c.fec_stripes)
  some (region ∷ rest)

-- The encoder works in place.
unfoldable pub write_regions : FecConfig → (b : ℕ) → List Bytes → Bytes → Bytes
write_regions c b [] fec_data = fec_data
write_regions c b (region ∷ rest) fec_data =
    write_regions c (b + c.fec_stripes) rest (copy_at (fec_offset c b) region fec_data)

unfoldable pub encode_stripe : FecConfig → Fifo → Slice → (stripe : ℕ) → Bytes → Option Bytes
encode_stripe c f s stripe fec_data = do
  let blocks = nr_blocks s.bytes c.block_size
  data_blocks ← encoded_blocks c.block_size f s (stripe_indices blocks c.fec_stripes stripe blocks)
  if length data_blocks == 0 || c.fec_redundancy == 0 then some fec_data else (do
    regions ← fec_regions c fec_data c.fec_redundancy stripe
    encoded ← fec_encode c.block_size data_blocks regions
    some (write_regions c stripe encoded fec_data))

unfoldable pub encode_stripes :
    FecConfig → Fifo → Slice → (rounds stripe : ℕ) → Bytes → Option Bytes
encode_stripes c f s zero stripe fec_data = some fec_data
encode_stripes c f s (suc n) stripe fec_data = do
  encoded ← encode_stripe c f s stripe fec_data
  encode_stripes c f s n (stripe + 1) encoded

unfoldable pub fec_encode_slice : FecConfig → Fifo → Slice → Option Slice
fec_encode_slice c f s = do
  encoded ← encode_stripes c f s c.fec_stripes 0 s.fec_data
  some (record s { fec_data = encoded })

-- The header of FEC block `i`.
unfoldable pub fec_header : FecConfig → Slice → ℕ → FecBlock
fec_header c s i = record {
  stripes = c.fec_stripes;
  slice_no = s.slice_no;
  block_no = i % 2 ^ 16;
  bytes = u32 s.bytes;
}

-- A packet is filled up to a whole block.
unfoldable pub fec_packet : FecConfig → Slice → ℕ → Option Bytes
fec_packet c s i = do
  body ← fec_region c s.fec_data i
  some (pack_fec_block (fec_header c s i) ++ (body ++ replicate (c.block_size - length body) 0))

unfoldable pub fec_packets : FecConfig → Slice → (rounds i : ℕ) → Option (List Bytes)
fec_packets c s zero i = some []
fec_packets c s (suc n) i = do
  p ← fec_packet c s i
  rest ← fec_packets c s n (i + 1)
  some (p ∷ rest)

unfoldable pub send_fec_blocks : FecConfig → Slice → Option (List Bytes)
send_fec_blocks c s = fec_packets c s (u32 (c.fec_redundancy * c.fec_stripes)) 0
