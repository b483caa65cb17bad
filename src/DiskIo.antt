-- ===== src/DiskIo.antt =====
-- The two local threads of src/diskio.rs: `local_reader_fifo` fills the ring from the input, and
-- `writer` drains it into the output. Each loop is cut at its critical sections, so that the steps
-- of the two threads can come in any order. A wait on a condition variable is a step that is not
-- possible yet; the notifications are in Produconsum.Handshake. In the program the other end of each
-- thread's ring is the network thread; here the two threads share one. The results of `read` and
-- `write_all` are the environment's.
pub mod Position
pub mod Stretch
pub mod Invariant
pub mod Requeue
pub mod Keep
pub mod Filling
pub mod Reading
pub mod Draining
pub mod Ending
pub mod Closing
pub mod Start
pub mod Writing
pub mod Schedule
pub mod Pipe
mod Tests
use udpcast_rs.Base.{
  ℕ, zero, suc, ◌+◌, ◌-◌, ◌%◌, ◌++◌, Bool, true, false, not, ◌&&◌, ◌==◌, Option, none, some, List,
  [], ◌∷◌, Bytes, length, ltb, if◌then◌else◌,
}
use udpcast_rs.Produconsum
use udpcast_rs.Produconsum.{Produconsum, Produce, done, fatal, Consumed}
use udpcast_rs.Fifo.{Fifo, write_at, read_at}

-- `BLOCKSIZE`
abbrev pub block_size : ℕ
block_size = 4096

-- Where a thread stands in its loop, with the local variables that are still read.
pub data Reader : Type 0 where
  await_room : Reader
  has_room : (pos bytes : ℕ) → Reader
  has_read claimed stored : (pos : ℕ) (buf : Bytes) → Reader
  reader_done : Reader

pub data Writer : Type 0 where
  await_bytes : Writer
  has_bytes : (pos bytes : ℕ) → Writer
  copied : (buf : Bytes) → Writer
  written consumed : (bytes : ℕ) → Writer
  writer_done : Writer

-- The shared ring, the two threads, what was read from the input and what went to the output.
pub record System : Type 0 where
  pub fifo : Fifo
  pub reader : Reader
  pub writer : Writer
  pub input : Bytes
  pub output : Bytes

-- How a step comes out: `exited` is `exit(1)` on an input or output error, `crashed` is a panic or
-- the `fatal` of an overflow.
pub data Outcome : Type 0 where
  blocked exited crashed : Outcome
  stepped : System → Outcome

-- What `read` returns; an empty result is the end of the input.
pub data ReadResult : Type 0 where
  read_error : ReadResult
  got : Bytes → ReadResult

-- The reader stops at a multiple of the block size, if it gets past one.
unfoldable pub reader_bytes : ℕ → ℕ → ℕ
reader_bytes pos bytes =
    let remainder = (pos + bytes) % block_size in
    if ltb remainder bytes && not (remainder == 0) then bytes - remainder else bytes

-- The writer does so too, but for the end of the ring.
unfoldable pub writer_bytes : ℕ → ℕ → ℕ → ℕ
writer_bytes size pos bytes =
    let remainder = (pos + bytes) % block_size in
    if (not (pos + bytes == size) && ltb remainder bytes) && not (remainder == 0)
    then bytes - remainder
    else bytes

unfoldable pub await : Produconsum → Option Consumed
await q = Produconsum.consume_contiguous_min_amount block_size q []

abbrev pub stop_reader : System → Fifo → Outcome
stop_reader s f = stepped (record s { fifo = f; reader = reader_done })

unfoldable pub finish_read : System → ℕ → ℕ → ReadResult → Outcome
finish_read s pos bytes read_error = exited
finish_read s pos bytes (got []) = elim (Produconsum.produce_end s.fifo.filled) [
  | fatal ↦ crashed
  | done q notified ↦ stop_reader s (record s.fifo { filled = q })
]
finish_read s pos bytes (got (b ∷ bs)) =
    stepped (record s { reader = has_read pos (b ∷ bs); input = s.input ++ (b ∷ bs) })

-- One step of the reader from where it stands.
unfoldable pub reader_move : ReadResult → System → Reader → Outcome
reader_move result s await_room = elim (await s.fifo.free_mem_queue) [
  | none ↦ blocked
  | some r ↦
      let pos = Produconsum.get_consumer_position s.fifo.free_mem_queue in
      let f = record s.fifo { free_mem_queue = r.queue } in
      let bytes = reader_bytes pos r.amount in
      if bytes == 0
      then stop_reader s f
      else stepped (record s { fifo = f; reader = has_room pos bytes })
]
reader_move result s (has_room pos bytes) = finish_read s pos bytes result
reader_move result s (has_read pos buf) = stepped (record s {
  fifo = record s.fifo {
    free_mem_queue = Produconsum.consume_amount s.fifo.free_mem_queue (length buf);
  };
  reader = claimed pos buf;
})
reader_move result s (claimed pos buf) = elim (write_at s.fifo pos buf) [
  | none ↦ crashed
  | some f ↦ stepped (record s { fifo = f; reader = stored pos buf })
]
reader_move result s (stored pos buf) = elim (Produconsum.produce s.fifo.filled (length buf)) [
  | fatal ↦ crashed
  | done q notified ↦
      stepped (record s { fifo = record s.fifo { filled = q }; reader = await_room })
]
reader_move result s reader_done = blocked

abbrev pub reader_step : ReadResult → System → Outcome
reader_step result s = reader_move result s s.reader

-- The guard of `writer` before its loop.
unfoldable pub writer_guard : Fifo → Bool
writer_guard f = f.filled.size % block_size == 0

-- One step of the writer; `write_all` fails where `write_ok` is false.
unfoldable pub writer_move : (write_ok : Bool) → System → Writer → Outcome
writer_move write_ok s await_bytes = elim (await s.fifo.filled) [
  | none ↦ blocked
  | some r ↦
      let pos = Produconsum.get_consumer_position s.fifo.filled in
      let f = record s.fifo { filled = r.queue } in
      if r.amount == 0
      then stepped (record s { fifo = f; writer = writer_done })
      else stepped
          (record s { fifo = f; writer = has_bytes pos (writer_bytes f.filled.size pos r.amount) })
]
writer_move write_ok s (has_bytes pos bytes) = elim (read_at s.fifo pos bytes) [
  | none ↦ crashed
  | some buf ↦ stepped (record s { writer = copied buf })
]
writer_move write_ok s (copied buf) =
    if write_ok
    then stepped (record s { writer = written (length buf); output = s.output ++ buf })
    else exited
writer_move write_ok s (written bytes) = stepped (record s {
  fifo = record s.fifo { filled = Produconsum.consume_amount s.fifo.filled bytes };
  writer = consumed bytes;
})
writer_move write_ok s (consumed bytes) = elim (Produconsum.produce s.fifo.free_mem_queue bytes) [
  | fatal ↦ crashed
  | done q notified ↦
      stepped (record s { fifo = record s.fifo { free_mem_queue = q }; writer = await_bytes })
]
writer_move write_ok s writer_done = blocked

abbrev pub writer_step : (write_ok : Bool) → System → Outcome
writer_step write_ok s = writer_move write_ok s s.writer
