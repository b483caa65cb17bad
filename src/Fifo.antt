-- ===== src/Fifo.antt =====
-- The ring buffer between the local threads and the network threads, src/fifo.rs. The bytes behind
-- the mutex are a list; each method is one critical section.
pub mod Ring
pub mod Window
pub mod RoundTrip
mod Tests
use udpcast_rs.Base.{
  ℕ, ◌+◌, ◌-◌, ◌*◌, ◌++◌, Option, none, some, Bytes, length, take, drop, replicate, copy_at, min,
  ltb, leb, if◌then◌else◌, ◌>>=◌, usize_sub, usize_mul,
}
use udpcast_rs.Produconsum
use udpcast_rs.Produconsum.{Produconsum, Produce, done, fatal}

pub record Fifo : Type 0 where
  pub buffer : Bytes
  pub data_buf_size : ℕ
  pub free_mem_queue : Produconsum
  pub filled : Produconsum  -- the field `data`

-- `new`: all of the ring is free memory; `none` is the `fatal` of `produce`.
unfoldable pub new : ℕ → Option Fifo
new block_size =
    let data_buf_size = usize_mul block_size 4096 in
    elim (Produconsum.produce (Produconsum.new data_buf_size) data_buf_size) [
      | done q notified ↦ some (record {
        buffer = replicate data_buf_size 0;
        data_buf_size = data_buf_size;
        free_mem_queue = q;
        filled = Produconsum.new data_buf_size;
      })
      | fatal ↦ none
    ]

-- `buf[i..i + src.len()].copy_from_slice(src)`; `none` is the panic out of range.
copy_into : ℕ → Bytes → Bytes → Option Bytes
copy_into i src buf = if leb (i + length src) (length buf) then some (copy_at i src buf) else none

-- `buf[i..i + n]`
unfoldable pub slice : Bytes → ℕ → ℕ → Option Bytes
slice buf i n = if leb (i + n) (length buf) then some (take n (drop i buf)) else none

unfoldable pub write_at : Fifo → ℕ → Bytes → Option Fifo
unfolding copy_into
write_at f offset bytes = do
  let first = min (length bytes) (usize_sub f.data_buf_size offset)
  head ← copy_into offset (take first bytes) f.buffer
  buffer ← if ltb first (length bytes) then copy_into 0 (drop first bytes) head else some head
  some (record f { buffer = buffer })

-- `read_at` into a slice of `size` bytes.
unfoldable pub read_at : Fifo → ℕ → ℕ → Option Bytes
unfolding slice
read_at f offset size = do
  let first = min size (usize_sub f.data_buf_size offset)
  head ← slice f.buffer offset first
  rest ← slice f.buffer 0 (size - first)
  some (head ++ rest)
