-- ===== src/DiskIo/Draining.antt =====
-- What the writer leaves of the invariant: the bytes that it wrote, took and gave back.
use mathlib.Core.List.{append_assoc}
use udpcast_rs.Base.{
  ℕ, ◌+◌, ◌-◌, ◌%◌, ◌<◌, ◌≡◌, refl, sym, ap, ◌∙◌, arith, ◌++◌, Bytes, length, drop,
  drop-append-length,
}
use udpcast_rs.Produconsum.{Produconsum, get_produced_amount, get_consumer_position, consume_amount}
use udpcast_rs.Produconsum.Counters
use udpcast_rs.Fifo.{Fifo}
use udpcast_rs.Fifo.Window.{window, length-window}
use udpcast_rs.DiskIo.{Reader, await_bytes, copied, written, consumed}
use udpcast_rs.DiskIo.Position.{position-lt, position-consume_amount}
use udpcast_rs.DiskIo.Stretch.{window-append, around_twice}
use udpcast_rs.DiskIo.Invariant.{
  free_amount, amount, place, next_place, contents, reserved, in_reader, Inv,
}
use udpcast_rs.DiskIo.Keep.{ReaderOk-keep, kept_size}

module _ (f : Fifo) (r : Reader) (n : ℕ) (input output : Bytes) where
  pub after_output :
      (buf : Bytes)
      → Inv f r (copied buf) input output
      → Inv f r (written (length buf)) input (output ++ buf)
  after_output buf v = record {
    ledger = record {
      ring = v.ledger.ring;
      free = v.ledger.free;
      filled = v.ledger.filled;
      free_size = v.ledger.free_size;
      filled_size = v.ledger.filled_size;
      accounted = v.ledger.accounted;
      adjacent = v.ledger.adjacent;
    };
    reader_ok = v.reader_ok;
    writer_ok = v.writer_ok.0;
    stream = moved;
  }
    where
      rest : Bytes
      rest = window f ((place f + length buf) % f.data_buf_size) (amount f - length buf)

      split : contents f ≡ buf ++ rest
      split =
          ap (λ (k : ℕ). window f (place f) k) (omega (arith, v.writer_ok.0))
          ∙ window-append f v.ledger.ring (place f) (length buf) (amount f - length buf)
              (omega (arith, position-lt f.filled v.ledger.filled, v.ledger.filled_size))
              (omega (arith, v.ledger.accounted, v.writer_ok.0))
          ∙ ap (λ (l : Bytes). l ++ rest) v.writer_ok.1

      moved : input ≡ (output ++ buf) ++ (drop (length buf) (contents f) ++ in_reader r)
      moved =
          rw (split, drop-append-length buf rest, append_assoc output buf (rest ++ in_reader r))
            (v.stream ∙ rw (split, append_assoc buf rest (in_reader r)) refl)

  module _ (v : Inv f r (written n) input output) where
    left :
        Counters.IsValid (consume_amount f.filled n)
        × (get_produced_amount (consume_amount f.filled n) + n ≡ amount f)
        × ((consume_amount f.filled n).produced ≡ f.filled.produced)
    left = Counters.consume_amount_lem f.filled n v.ledger.filled v.writer_ok

    moved_on : get_consumer_position (consume_amount f.filled n) ≡ (place f + n) % f.data_buf_size
    moved_on =
        position-consume_amount f.filled n v.ledger.filled v.writer_ok
        ∙ ap (λ (k : ℕ). (place f + n) % k) v.ledger.filled_size

    -- The end of the bytes that wait stays where it is.
    same_end :
        (k : ℕ)
        → (get_consumer_position (consume_amount f.filled n)
              + (get_produced_amount (consume_amount f.filled n) + k))
            % f.data_buf_size
          ≡ (place f + (amount f + k)) % f.data_buf_size
    same_end k =
        ap
          (λ (t : ℕ). (t + (get_produced_amount (consume_amount f.filled n) + k)) % f.data_buf_size)
          moved_on
        ∙ around_twice f.data_buf_size (place f) n
            (get_produced_amount (consume_amount f.filled n) + k)
        ∙ ap (λ (t : ℕ). (place f + t) % f.data_buf_size) (omega (arith, left.1))

    same_next :
        (get_consumer_position (consume_amount f.filled n)
            + get_produced_amount (consume_amount f.filled n))
          % f.data_buf_size
        ≡ next_place f
    same_next =
        ap (λ (t : ℕ). (get_consumer_position (consume_amount f.filled n) + t) % f.data_buf_size)
          (omega arith)
        ∙ same_end 0
        ∙ ap (λ (t : ℕ). (place f + t) % f.data_buf_size) (omega arith)

    rest : Bytes
    rest =
        window f (get_consumer_position (consume_amount f.filled n))
          (get_produced_amount (consume_amount f.filled n))

    first : Bytes
    first = window f (place f) n

    place-lt : place f < f.data_buf_size
    place-lt = omega (arith, position-lt f.filled v.ledger.filled, v.ledger.filled_size)

    length-first : length first ≡ n
    unfolding first
    length-first =
        length-window f v.ledger.ring (place f) n place-lt
          (omega (arith, v.ledger.accounted, v.writer_ok))

    contents-split : contents f ≡ first ++ rest
    unfolding first rest
    contents-split =
        ap (λ (k : ℕ). window f (place f) k) (omega (arith, left.1))
        ∙ window-append f v.ledger.ring (place f) n
            (get_produced_amount (consume_amount f.filled n)) place-lt
            (omega (arith, v.ledger.accounted, left.1))
        ∙ ap (λ (k : ℕ). first ++ window f k (get_produced_amount (consume_amount f.filled n)))
            (sym moved_on)

    contents-after : drop n (contents f) ≡ rest
    contents-after =
        ap (λ (k : ℕ). drop k (contents f)) (sym length-first)
        ∙ ap (λ (l : Bytes). drop (length first) l) contents-split
        ∙ drop-append-length first rest

    pub after_take :
        Inv (record f { filled = consume_amount f.filled n }) r (consumed n) input output
    unfolding window rest
    after_take = record {
      ledger = record {
        ring = record { whole = v.ledger.ring.whole; small = v.ledger.ring.small };
        free = v.ledger.free;
        filled = left.0;
        free_size = v.ledger.free_size;
        filled_size = kept_size f.filled n ∙ v.ledger.filled_size;
        accounted = omega (arith, left.1, v.ledger.accounted);
        adjacent = v.ledger.adjacent ∙ sym (same_end (reserved r));
      };
      reader_ok =
          ReaderOk-keep f (record f { filled = consume_amount f.filled n }) r refl (omega arith)
            same_next (λ m. refl) v.reader_ok;
      writer_ok = tt;
      stream = v.stream ∙ ap (λ (l : Bytes). output ++ (l ++ in_reader r)) contents-after;
    }

  pub after_return :
      (q : Produconsum)
      → Inv f r (consumed n) input output
      → Counters.IsValid q
      → q.size ≡ f.free_mem_queue.size
      → get_consumer_position q ≡ get_consumer_position f.free_mem_queue
      → get_produced_amount q ≡ free_amount f + n
      → Inv (record f { free_mem_queue = q }) r await_bytes input output
  unfolding window
  after_return q v valid size position more = record {
    ledger = record {
      ring = record { whole = v.ledger.ring.whole; small = v.ledger.ring.small };
      free = valid;
      filled = v.ledger.filled;
      free_size = size ∙ v.ledger.free_size;
      filled_size = v.ledger.filled_size;
      accounted = omega (arith, more, v.ledger.accounted);
      adjacent = position ∙ v.ledger.adjacent;
    };
    reader_ok =
        ReaderOk-keep f (record f { free_mem_queue = q }) r position (omega (arith, more)) refl
          (λ m. refl) v.reader_ok;
    writer_ok = tt;
    stream = v.stream;
  }
