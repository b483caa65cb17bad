-- ===== src/DiskIo/Requeue.antt =====
-- A change of the queues' flags changes nothing that the invariant speaks of.
use udpcast_rs.Base.{◌≡◌, refl, ◌∙◌, arith, Bytes}
use udpcast_rs.Produconsum.{Produconsum, get_produced_amount, get_consumer_position}
use udpcast_rs.Fifo.{Fifo}
use udpcast_rs.Fifo.Window.{window}
use udpcast_rs.DiskIo.{
  Reader, await_room, has_room, has_read, claimed, stored, reader_done, Writer, await_bytes,
  has_bytes, copied, written, consumed, writer_done,
}
use udpcast_rs.DiskIo.Position.{Alike, Alike-amount, Alike-position, Alike-IsValid}
use udpcast_rs.DiskIo.Invariant.{
  free_amount, amount, place, contents, ReaderOk, WriterOk, Ledger, Inv,
}

module _ (f : Fifo) (q p : Produconsum) (a : Alike f.free_mem_queue q) (b : Alike f.filled p) where
  unfoldable pub requeued : Fifo
  requeued = record f { free_mem_queue = q; filled = p }

  free-same : get_produced_amount q ≡ free_amount f
  free-same = Alike-amount f.free_mem_queue q a

  amount-same : get_produced_amount p ≡ amount f
  amount-same = Alike-amount f.filled p b

  place-same : get_consumer_position p ≡ place f
  place-same = Alike-position f.filled p b

  Ledger-requeued : (r : Reader) (w : Writer) → Ledger f r w → Ledger requeued r w
  unfolding requeued
  Ledger-requeued r w v = record {
    ring = record { whole = v.ring.whole; small = v.ring.small };
    free = Alike-IsValid f.free_mem_queue q a v.free;
    filled = Alike-IsValid f.filled p b v.filled;
    free_size = a.size ∙ v.free_size;
    filled_size = b.size ∙ v.filled_size;
    accounted = omega (arith, free-same, amount-same, v.accounted);
    adjacent = rw (Alike-position f.free_mem_queue q a, place-same, amount-same) v.adjacent;
  }

  ReaderOk-requeued : (r : Reader) → ReaderOk f r → ReaderOk requeued r
  unfolding requeued window
  ReaderOk-requeued await_room k = k
  ReaderOk-requeued (has_room pos bytes) k = rw (Alike-position f.free_mem_queue q a, free-same) k
  ReaderOk-requeued (has_read pos buf) k = rw (Alike-position f.free_mem_queue q a, free-same) k
  ReaderOk-requeued (claimed pos buf) k = rw (place-same, amount-same) k
  ReaderOk-requeued (stored pos buf) k = rw (place-same, amount-same) k
  ReaderOk-requeued reader_done k = k

  WriterOk-requeued : (w : Writer) → WriterOk f w → WriterOk requeued w
  unfolding requeued window
  WriterOk-requeued await_bytes k = k
  WriterOk-requeued (has_bytes pos bytes) k = rw (place-same, amount-same) k
  WriterOk-requeued (copied buf) k = rw (place-same, amount-same) k
  WriterOk-requeued (written bytes) k = rw amount-same k
  WriterOk-requeued (consumed bytes) k = k
  WriterOk-requeued writer_done k = k

  pub contents-requeued : contents requeued ≡ contents f
  unfolding requeued window
  contents-requeued = rw (place-same, amount-same) refl

  pub Inv-requeued :
      (r : Reader) (w : Writer) (input output : Bytes)
      → Inv f r w input output
      → Inv requeued r w input output
  Inv-requeued r w input output v = record {
    ledger = Ledger-requeued r w v.ledger;
    reader_ok = ReaderOk-requeued r v.reader_ok;
    writer_ok = WriterOk-requeued w v.writer_ok;
    stream = rw contents-requeued v.stream;
  }
