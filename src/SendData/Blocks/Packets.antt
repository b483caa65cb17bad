-- ===== src/SendData/Blocks/Packets.antt =====
-- A block's packet is its header, and behind it what the ring holds there.
use mathlib.Core.List.{append-nil, append_assoc}
use udpcast_rs.Base.{
  ℕ, ◌-◌, ◌^◌, ◌<◌, ◌≤◌, ◌≡◌, arith, ◌++◌, some, Bytes, min, Bool-cases, inl, inr, ltb, sym, ap,
}
use udpcast_rs.Fifo.{Fifo, read_at}
use udpcast_rs.Fifo.Ring.{IsValid, left-eq}
use udpcast_rs.Fifo.Window.{window, read_at-window, slice-fits}
use udpcast_rs.SendData.Blocks.{append_ring, block_bytes, block_header, block_start, data_packet}
use udpcast_rs.SendData.{Slice}
use udpcast_rs.Protocol.Pack.{pack_data_block, unpack_data_block}
use udpcast_rs.Protocol.Pack.RoundTrip.{unpack-pack_data_block}

pub append_ring_lem :
    (packet : Bytes) (f : Fifo) (start size : ℕ)
    → IsValid f
    → start < f.data_buf_size
    → size ≤ f.data_buf_size
    → append_ring packet f start size ≡ some (packet ++ window f start size)
unfolding append_ring window
append_ring_lem packet f start size v o l =
    rw
      (
        left-eq f start v o,
        slice-fits f.buffer start (min size (f.data_buf_size - start)) (omega (arith, v.whole)),
      )
      (elim (Bool-cases (ltb (min size (f.data_buf_size - start)) size)) [
        | inl e ↦
            rw
              (
                e,
                slice-fits f.buffer 0 (size - min size (f.data_buf_size - start))
                    (omega (arith, v.whole)),
              )
              (ap some (append_assoc packet _ _))
        | inr e ↦
            rw (e, nothing (ground (arith, e)), append-nil)
              (ap (λ xs. some (packet ++ xs)) (sym (append-nil _)))
      ])
  where
    nothing :
        size ≤ min size (f.data_buf_size - start) → size - min size (f.data_buf_size - start) ≡ 0
    nothing h = omega arith

-- The packet of block `i`.
unfoldable pub packet_of : ℕ → Fifo → Slice → ℕ → Bytes
packet_of block_size f s i =
    pack_data_block (block_header s i)
    ++ window f (block_start block_size f s i) (block_bytes block_size s i)

module _ (block_size : ℕ) (f : Fifo) (s : Slice) (i : ℕ) (v : IsValid f) (p : 0 < f.data_buf_size)
    (l : block_size ≤ f.data_buf_size) where
  start-lt : block_start block_size f s i < f.data_buf_size
  unfolding block_start
  start-lt = omega arith

  bytes-le : block_bytes block_size s i ≤ f.data_buf_size
  unfolding block_bytes
  bytes-le = ground arith

  pub data_packet-packet_of : data_packet block_size f s i ≡ some (packet_of block_size f s i)
  unfolding data_packet packet_of
  data_packet-packet_of =
      append_ring_lem (pack_data_block (block_header s i)) f (block_start block_size f s i)
        (block_bytes block_size s i) v start-lt bytes-le

  -- In a valid ring that holds at least a block, the packet of a block of a slice whose number fits
  -- 32 bits is the header, which is read back from it, and behind it the bytes that a read of the
  -- ring gives at the block's place.
  pub data_packet_lem :
      s.slice_no < 2 ^ 32
      → (b : Bytes) × (read_at f (block_start block_size f s i) (block_bytes block_size s i)
          ≡ some b)
        × (data_packet block_size f s i ≡ some (pack_data_block (block_header s i) ++ b))
        × (unpack_data_block (pack_data_block (block_header s i) ++ b) ≡ some (block_header s i))
  unfolding packet_of block_header
  data_packet_lem h = (
    window f (block_start block_size f s i) (block_bytes block_size s i),
    read_at-window f v (block_start block_size f s i) (block_bytes block_size s i) start-lt
        bytes-le,
    data_packet-packet_of,
    unpack-pack_data_block (block_header s i) _ h (omega arith) (omega arith),
  )
