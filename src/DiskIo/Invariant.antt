-- ===== src/DiskIo/Invariant.antt =====
-- What holds between the steps of the two threads: every byte of the ring is free, held by a
-- thread or waiting, and what was read is what was written and what is on its way.
use udpcast_rs.Base.{ℕ, ◌+◌, ◌%◌, ◌≤◌, ◌≡◌, [], ◌++◌, Bytes, length, drop}
use udpcast_rs.Produconsum.{get_produced_amount, get_consumer_position}
use udpcast_rs.Produconsum.Counters
use udpcast_rs.Fifo.{Fifo}
use udpcast_rs.Fifo.Ring
use udpcast_rs.Fifo.Window.{window}
use udpcast_rs.DiskIo.{
  Reader, has_room, has_read, claimed, stored, Writer, has_bytes, copied, written, consumed, System,
  Outcome, crashed, stepped,
}

-- The amounts and the place of the bytes that wait for the writer.
abbrev pub free_amount : Fifo → ℕ
free_amount f = get_produced_amount f.free_mem_queue

abbrev pub amount : Fifo → ℕ
amount f = get_produced_amount f.filled

abbrev pub place : Fifo → ℕ
place f = get_consumer_position f.filled

-- Where the next bytes go.
abbrev pub next_place : Fifo → ℕ
next_place f = (place f + amount f) % f.data_buf_size

abbrev pub contents : Fifo → Bytes
contents f = window f (place f) (amount f)

-- The bytes that the reader took from the free memory and has not handed over.
abbrev pub reserved : Reader → ℕ
reserved (claimed pos buf) = length buf
reserved (stored pos buf) = length buf
reserved _ = 0

-- The bytes that the reader holds.
abbrev pub in_reader : Reader → Bytes
in_reader (has_read pos buf) = buf
in_reader (claimed pos buf) = buf
in_reader (stored pos buf) = buf
in_reader _ = []

-- The bytes that the writer took and has not given back.
abbrev pub taken : Writer → ℕ
taken (consumed bytes) = bytes
taken _ = 0

-- The bytes in the ring that are in the output already.
abbrev pub already : Writer → ℕ
already (written bytes) = bytes
already _ = 0

abbrev pub ReaderOk : Fifo → Reader → Type 0
ReaderOk f (has_room pos bytes) =
    (pos ≡ get_consumer_position f.free_mem_queue) × (bytes ≤ free_amount f)
ReaderOk f (has_read pos buf) =
    (pos ≡ get_consumer_position f.free_mem_queue) × (length buf ≤ free_amount f)
ReaderOk f (claimed pos buf) = pos ≡ next_place f
ReaderOk f (stored pos buf) = window f (next_place f) (length buf) ≡ buf
ReaderOk f _ = Unit

abbrev pub WriterOk : Fifo → Writer → Type 0
WriterOk f (has_bytes pos bytes) = (pos ≡ place f) × (bytes ≤ amount f)
WriterOk f (copied buf) = (length buf ≤ amount f) × (window f (place f) (length buf) ≡ buf)
WriterOk f (written bytes) = bytes ≤ amount f
WriterOk f _ = Unit

-- The ring and the two queues, with what the threads hold.
pub record Ledger (f : Fifo) (r : Reader) (w : Writer) : Type 0 where
  pub ring : Ring.IsValid f
  pub free : Counters.IsValid f.free_mem_queue
  pub filled : Counters.IsValid f.filled
  pub free_size : f.free_mem_queue.size ≡ f.data_buf_size
  pub filled_size : f.filled.size ≡ f.data_buf_size
  pub accounted : (free_amount f + reserved r) + (amount f + taken w) ≡ f.data_buf_size
  pub adjacent :
      get_consumer_position f.free_mem_queue ≡ (place f + (amount f + reserved r)) % f.data_buf_size

pub record Inv (f : Fifo) (r : Reader) (w : Writer) (input output : Bytes) : Type 0 where
  pub ledger : Ledger f r w
  pub reader_ok : ReaderOk f r
  pub writer_ok : WriterOk f w
  pub stream : input ≡ output ++ (drop (already w) (contents f) ++ in_reader r)

abbrev pub IsSound : System → Type 0
IsSound s = Inv s.fifo s.reader s.writer s.input s.output

-- A step never crashes, and where the process goes on it is sound.
abbrev pub StaysSound : Outcome → Type 0
StaysSound crashed = ⊥
StaysSound (stepped s) = IsSound s
StaysSound _ = Unit
