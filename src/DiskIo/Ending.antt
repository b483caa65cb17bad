-- ===== src/DiskIo/Ending.antt =====
-- The end of the input: who knows of it, and that a thread stops only there.
use udpcast_rs.Base.{ℕ, ◌≡◌, ◌∙◌, arith, true, false}
use udpcast_rs.Fifo.{Fifo}
use udpcast_rs.DiskIo.{
  Reader, await_room, has_room, has_read, claimed, stored, reader_done, Writer, await_bytes,
  has_bytes, copied, written, consumed, writer_done, Outcome, stepped, reader_bytes,
}
use udpcast_rs.DiskIo.Invariant.{amount}

-- The reader has not ended the queue before it is done.
abbrev pub ReaderEnd : Fifo → Reader → Type 0
ReaderEnd f reader_done = f.filled.at_end ≡ true
ReaderEnd f _ = f.filled.at_end ≡ false

-- A writer that is done has left nothing.
abbrev pub WriterEnd : Fifo → Writer → Type 0
WriterEnd f writer_done = (f.filled.at_end ≡ true) × (amount f ≡ 0)
WriterEnd f _ = Unit

pub record Ends (f : Fifo) (r : Reader) (w : Writer) : Type 0 where
  pub reader_end : ReaderEnd f r
  pub writer_end : WriterEnd f w
  pub free_open : f.free_mem_queue.at_end ≡ false

abbrev pub StaysEnding : Outcome → Type 0
StaysEnding (stepped s) = Ends s.fifo s.reader s.writer
StaysEnding _ = Unit

pub reader_bytes_positive : (pos n : ℕ) → reader_bytes pos n ≡ 0 → n ≡ 0
unfolding reader_bytes
reader_bytes_positive pos n e = ground (arith, e)

-- A writer that is done stays so while the queue is not ended.
pub WriterEnd-open :
    (f g : Fifo) (w : Writer) → f.filled.at_end ≡ false → WriterEnd f w → WriterEnd g w
WriterEnd-open f g await_bytes e k = tt
WriterEnd-open f g (has_bytes pos bytes) e k = tt
WriterEnd-open f g (copied buf) e k = tt
WriterEnd-open f g (written bytes) e k = tt
WriterEnd-open f g (consumed bytes) e k = tt
WriterEnd-open f g writer_done e k = cc (e, k.0)

pub WriterEnd-ended :
    (f g : Fifo) (w : Writer)
    → g.filled.at_end ≡ f.filled.at_end
    → amount g ≡ amount f
    → WriterEnd f w
    → WriterEnd g w
WriterEnd-ended f g await_bytes e a k = tt
WriterEnd-ended f g (has_bytes pos bytes) e a k = tt
WriterEnd-ended f g (copied buf) e a k = tt
WriterEnd-ended f g (written bytes) e a k = tt
WriterEnd-ended f g (consumed bytes) e a k = tt
WriterEnd-ended f g writer_done e a k = (e ∙ k.0, a ∙ k.1)

pub ReaderEnd-keep :
    (f g : Fifo) (r : Reader) → g.filled.at_end ≡ f.filled.at_end → ReaderEnd f r → ReaderEnd g r
ReaderEnd-keep f g await_room e k = e ∙ k
ReaderEnd-keep f g (has_room pos bytes) e k = e ∙ k
ReaderEnd-keep f g (has_read pos buf) e k = e ∙ k
ReaderEnd-keep f g (claimed pos buf) e k = e ∙ k
ReaderEnd-keep f g (stored pos buf) e k = e ∙ k
ReaderEnd-keep f g reader_done e k = e ∙ k
