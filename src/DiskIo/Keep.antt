-- ===== src/DiskIo/Keep.antt =====
-- What each thread relies on, where the other one moves.
use udpcast_rs.Base.{ℕ, ◌≤◌, ◌≡◌, sym, ◌∙◌, arith, length}
use udpcast_rs.Produconsum.{Produconsum, get_consumer_position, consume_amount}
use udpcast_rs.Fifo.{Fifo}
use udpcast_rs.Fifo.Window.{window}
use udpcast_rs.DiskIo.{
  Reader, await_room, has_room, has_read, claimed, stored, reader_done, Writer, await_bytes,
  has_bytes, copied, written, consumed, writer_done,
}
use udpcast_rs.DiskIo.Invariant.{
  free_amount, amount, place, next_place, already, ReaderOk, WriterOk,
}

-- What the writer relies on still holds if the place and the bytes that wait there are the same.
pub WriterOk-keep :
    (f g : Fifo) (w : Writer)
    → place g ≡ place f
    → amount f ≤ amount g
    → ((m : ℕ) → m ≤ amount f → window g (place f) m ≡ window f (place f) m)
    → WriterOk f w
    → WriterOk g w
WriterOk-keep f g await_bytes p a h k = k
WriterOk-keep f g (has_bytes pos bytes) p a h k = omega arith
WriterOk-keep f g (copied buf) p a h k = (omega arith, rw p (h (length buf) k.0) ∙ k.1)
WriterOk-keep f g (written bytes) p a h k = omega arith
WriterOk-keep f g (consumed bytes) p a h k = k
WriterOk-keep f g writer_done p a h k = k

pub already-le : (f : Fifo) (w : Writer) → WriterOk f w → already w ≤ amount f
already-le f await_bytes k = omega arith
already-le f (has_bytes pos bytes) k = omega arith
already-le f (copied buf) k = omega arith
already-le f (written bytes) k = k
already-le f (consumed bytes) k = omega arith
already-le f writer_done k = omega arith

pub kept_size : (q : Produconsum) (n : ℕ) → (consume_amount q n).size ≡ q.size
unfolding consume_amount
kept_size q n = ground arith

-- What the reader relies on still holds if no less memory is free and the next place is the same.
pub ReaderOk-keep :
    (f g : Fifo) (r : Reader)
    → get_consumer_position g.free_mem_queue ≡ get_consumer_position f.free_mem_queue
    → free_amount f ≤ free_amount g
    → next_place g ≡ next_place f
    → ((n : ℕ) → window g (next_place f) n ≡ window f (next_place f) n)
    → ReaderOk f r
    → ReaderOk g r
ReaderOk-keep f g await_room p a n h k = k
ReaderOk-keep f g (has_room pos bytes) p a n h k = (k.0 ∙ sym p, omega arith)
ReaderOk-keep f g (has_read pos buf) p a n h k = (k.0 ∙ sym p, omega arith)
ReaderOk-keep f g (claimed pos buf) p a n h k = k ∙ sym n
ReaderOk-keep f g (stored pos buf) p a n h k = rw n (h (length buf)) ∙ k
ReaderOk-keep f g reader_done p a n h k = k
