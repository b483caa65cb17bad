-- ===== src/DiskIo/Filling.antt =====
-- What the reader leaves of the invariant: a claim, a write into the ring, and the hand-over.
use mathlib.Core.List.{append-nil}
use udpcast_rs.Base.{
  ℕ, ◌+◌, ◌%◌, ◌<◌, ◌≤◌, ◌≡◌, refl, ap, ◌∙◌, arith, [], ◌++◌, Bytes, length, drop,
  drop-append_within,
}
use udpcast_rs.Produconsum.{Produconsum, get_produced_amount, get_consumer_position, consume_amount}
use udpcast_rs.Produconsum.Counters.{IsValid, consume_amount_lem}
use udpcast_rs.Fifo.{Fifo}
use udpcast_rs.Fifo.Window.{window, length-window}
use udpcast_rs.DiskIo.{await_room, has_read, claimed, stored, Writer}
use udpcast_rs.DiskIo.Position.{position-lt, position-consume_amount}
use udpcast_rs.DiskIo.Stretch.{window-append, IsWritten, around_twice}
use udpcast_rs.DiskIo.Invariant.{free_amount, amount, place, contents, already, Inv}
use udpcast_rs.DiskIo.Keep.{WriterOk-keep, already-le, kept_size}

pub after_claim :
    (f : Fifo) (pos : ℕ) (buf : Bytes) (w : Writer) (input output : Bytes)
    → Inv f (has_read pos buf) w input output
    → Inv
        (record f { free_mem_queue = consume_amount f.free_mem_queue (length buf) })
        (claimed pos buf)
        w
        input
        output
unfolding window
after_claim f pos buf w input output v = record {
  ledger = record {
    ring = record { whole = v.ledger.ring.whole; small = v.ledger.ring.small };
    free = left.0;
    filled = v.ledger.filled;
    free_size = kept_size f.free_mem_queue (length buf) ∙ v.ledger.free_size;
    filled_size = v.ledger.filled_size;
    accounted = omega (arith, left.1, v.ledger.accounted);
    adjacent =
        position-consume_amount f.free_mem_queue (length buf) v.ledger.free v.reader_ok.1
        ∙ ap (λ (k : ℕ). (get_consumer_position f.free_mem_queue + length buf) % k)
            v.ledger.free_size
        ∙ ap (λ (k : ℕ). (k + length buf) % f.data_buf_size) v.ledger.adjacent
        ∙ around_twice f.data_buf_size (place f) (amount f + 0) (length buf)
        ∙ ap (λ (k : ℕ). (place f + k) % f.data_buf_size) (omega arith);
  };
  reader_ok =
      v.reader_ok.0
      ∙ v.ledger.adjacent
      ∙ ap (λ (k : ℕ). (place f + k) % f.data_buf_size) (omega arith);
  writer_ok =
      WriterOk-keep f (record f { free_mem_queue = consume_amount f.free_mem_queue (length buf) }) w
        refl (omega arith) (λ m l. refl) v.writer_ok;
  stream = v.stream;
}
  where
    left :
        IsValid (consume_amount f.free_mem_queue (length buf))
        × (get_produced_amount (consume_amount f.free_mem_queue (length buf)) + length buf
            ≡ free_amount f)
        × ((consume_amount f.free_mem_queue (length buf)).produced ≡ f.free_mem_queue.produced)
    left = consume_amount_lem f.free_mem_queue (length buf) v.ledger.free v.reader_ok.1

pub after_write :
    (f : Fifo) (pos : ℕ) (buf b : Bytes) (w : Writer) (input output : Bytes)
    → Inv f (claimed pos buf) w input output
    → IsWritten f (record f { buffer = b }) (place f) (amount f) buf
    → Inv (record f { buffer = b }) (stored pos buf) w input output
after_write f pos buf b w input output v k = record {
  ledger = record {
    ring = k.valid;
    free = v.ledger.free;
    filled = v.ledger.filled;
    free_size = v.ledger.free_size;
    filled_size = v.ledger.filled_size;
    accounted = v.ledger.accounted;
    adjacent = v.ledger.adjacent;
  };
  reader_ok = k.behind;
  writer_ok = WriterOk-keep f _ w refl (omega arith) k.before v.writer_ok;
  stream = rw (k.before (amount f) (omega arith)) v.stream;
}

module _ (f : Fifo) (pos : ℕ) (buf : Bytes) (w : Writer) (input output : Bytes)
    (v : Inv f (stored pos buf) w input output) (q : Produconsum) (valid : IsValid q)
    (size : q.size ≡ f.filled.size) (position : get_consumer_position q ≡ place f)
    (more : get_produced_amount q ≡ amount f + length buf) where
  place-lt : place f < f.data_buf_size
  place-lt = omega (arith, position-lt f.filled v.ledger.filled, v.ledger.filled_size)

  after_produce-contents : window f (place f) (amount f + length buf) ≡ contents f ++ buf
  after_produce-contents =
      window-append f v.ledger.ring (place f) (amount f) (length buf) place-lt
        (omega (arith, v.ledger.accounted))
      ∙ ap (λ (l : Bytes). contents f ++ l) v.reader_ok

  handed_over :
      input
      ≡ output
        ++ (drop (already w) (window f (get_consumer_position q) (get_produced_amount q)) ++ [])
  handed_over =
      rw (position, more, after_produce-contents)
        (rw
          (
            drop-append_within (already w) (contents f) buf within,
            append-nil (drop (already w) (contents f) ++ buf),
          )
          v.stream)
    where
      within : already w ≤ length (contents f)
      within = omega (
        arith,
        length-window f v.ledger.ring (place f) (amount f) place-lt
            (omega (arith, v.ledger.accounted)),
        already-le f w v.writer_ok,
      )

  pub after_produce : Inv (record f { filled = q }) await_room w input output
  unfolding window
  after_produce = record {
    ledger = record {
      ring = record { whole = v.ledger.ring.whole; small = v.ledger.ring.small };
      free = v.ledger.free;
      filled = valid;
      free_size = v.ledger.free_size;
      filled_size = size ∙ v.ledger.filled_size;
      accounted = omega (arith, more, v.ledger.accounted);
      adjacent =
          v.ledger.adjacent
          ∙ rw position (ap (λ (k : ℕ). (place f + k) % f.data_buf_size) (omega (arith, more)));
    };
    reader_ok = tt;
    writer_ok =
        WriterOk-keep f (record f { filled = q }) w position (omega (arith, more)) (λ m l. refl)
          v.writer_ok;
    stream = handed_over;
  }
