-- ===== src/DiskIo/Writing.antt =====
-- Every step of the writer keeps the invariant.
use udpcast_rs.Base.{
  ℕ, ◌<◌, ◌≤◌, ◌≡◌, refl, sym, ap, arith, Bool, true, false, Bytes, length, inl, inr, Option-cases,
  Bool-cases, if◌then◌else◌, ◌==◌,
}
use udpcast_rs.Produconsum.{Produconsum, Consumed, get_produced_amount, get_consumer_position}
use udpcast_rs.Produconsum.Counters.{produce_lem}
use udpcast_rs.Fifo.{Fifo}
use udpcast_rs.Fifo.Window.{window, length-window, read_at-window}
use udpcast_rs.DiskIo.{
  Reader, Writer, await_bytes, has_bytes, copied, written, consumed, writer_done, System, stepped,
  await, writer_bytes, writer_move, writer_step,
}
use udpcast_rs.DiskIo.Position.{
  Alike, Alike-self, Alike-position, Alike-amount, position-lt, produce-position, await_lem,
}
use udpcast_rs.DiskIo.Requeue.{requeued, Inv-requeued}
use udpcast_rs.DiskIo.Invariant.{place, taken, already, WriterOk, Inv, IsSound, StaysSound}
use udpcast_rs.DiskIo.Draining.{after_output, after_take, after_return}

-- The writer at another place of its loop at which it has taken and written nothing.
writer_at :
    (f : Fifo) (r : Reader) (w : Writer) (input output : Bytes)
    → taken w ≡ 0
    → already w ≡ 0
    → WriterOk f w
    → Inv f r await_bytes input output
    → Inv f r w input output
writer_at f r w input output e h k v = record {
  ledger = record {
    ring = v.ledger.ring;
    free = v.ledger.free;
    filled = v.ledger.filled;
    free_size = v.ledger.free_size;
    filled_size = v.ledger.filled_size;
    accounted = rw e v.ledger.accounted;
    adjacent = v.ledger.adjacent;
  };
  reader_ok = v.reader_ok;
  writer_ok = k;
  stream = rw h v.stream;
}

writer_bytes-le : (size pos bytes : ℕ) → writer_bytes size pos bytes ≤ bytes
unfolding writer_bytes
writer_bytes-le size pos bytes = ground arith

-- What is taken is waiting.
there :
    (q p : Produconsum) (a : Alike q p) (size pos n : ℕ)
    → n ≤ get_produced_amount q
    → writer_bytes size pos n ≤ get_produced_amount p
there q p a size pos n le = omega (arith, Alike-amount q p a, writer_bytes-le size pos n, le)

module _ (s : System) (write_ok : Bool) where
  await_bytes-StaysSound :
      Inv s.fifo s.reader await_bytes s.input s.output
      → StaysSound (writer_move write_ok s await_bytes)
  unfolding requeued writer_move
  await_bytes-StaysSound v = elim (Option-cases (await s.fifo.filled)) [
    | inl e ↦ rw (e, writer_move) tt
    | inr (r, e) ↦ rw (e, writer_move) (taken_up r (await_lem s.fifo.filled r e))
  ]
    where
      pos : ℕ
      pos = get_consumer_position s.fifo.filled

      taken_up :
          (r : Consumed)
          → Alike s.fifo.filled r.queue × (r.amount ≤ get_produced_amount s.fifo.filled)
          → StaysSound (
              let f = record s.fifo { filled = r.queue } in
              if r.amount == 0
              then stepped (record s { fifo = f; writer = writer_done })
              else stepped (record s {
                fifo = f;
                writer = has_bytes pos (writer_bytes f.filled.size pos r.amount);
              }))
      taken_up r (a, le) = elim (Bool-cases (r.amount == 0)) [
        | inl e ↦ rw e (writer_at f s.reader writer_done s.input s.output refl refl tt v')
        | inr e ↦ rw e (
            writer_at f s.reader (has_bytes pos (writer_bytes r.queue.size pos r.amount)) s.input
              s.output refl refl
              (
                sym (Alike-position s.fifo.filled r.queue a),
                there s.fifo.filled r.queue a r.queue.size pos r.amount le,
              )
              v')
      ]
        where
          f : Fifo
          f = requeued s.fifo s.fifo.free_mem_queue r.queue (Alike-self s.fifo.free_mem_queue) a

          v' : Inv f s.reader await_bytes s.input s.output
          v' =
              Inv-requeued s.fifo s.fifo.free_mem_queue r.queue (Alike-self s.fifo.free_mem_queue) a
                s.reader await_bytes s.input s.output v

  has_bytes-StaysSound :
      (pos bytes : ℕ)
      → Inv s.fifo s.reader (has_bytes pos bytes) s.input s.output
      → StaysSound (writer_move write_ok s (has_bytes pos bytes))
  unfolding writer_move
  has_bytes-StaysSound pos bytes v =
      rw
        (
          v.writer_ok.0,
          read_at-window s.fifo v.ledger.ring (place s.fifo) bytes place-lt bytes-le,
          writer_move,
        )
        record {
          ledger = record {
            ring = v.ledger.ring;
            free = v.ledger.free;
            filled = v.ledger.filled;
            free_size = v.ledger.free_size;
            filled_size = v.ledger.filled_size;
            accounted = v.ledger.accounted;
            adjacent = v.ledger.adjacent;
          };
          reader_ok = v.reader_ok;
          writer_ok = (
            omega (arith, long, v.writer_ok.1),
            ap (λ (n : ℕ). window s.fifo (place s.fifo) n) long,
          );
          stream = v.stream;
        }
    where
      place-lt : place s.fifo < s.fifo.data_buf_size
      place-lt = omega (arith, position-lt s.fifo.filled v.ledger.filled, v.ledger.filled_size)

      bytes-le : bytes ≤ s.fifo.data_buf_size
      bytes-le = omega (arith, v.ledger.accounted, v.writer_ok.1)

      long : length (window s.fifo (place s.fifo) bytes) ≡ bytes
      long = length-window s.fifo v.ledger.ring (place s.fifo) bytes place-lt bytes-le

  consumed-StaysSound :
      (bytes : ℕ)
      → Inv s.fifo s.reader (consumed bytes) s.input s.output
      → StaysSound (writer_move write_ok s (consumed bytes))
  unfolding writer_move
  consumed-StaysSound bytes v =
      let (q, e, valid, more, c) =
        produce_lem s.fifo.free_mem_queue bytes v.ledger.free
          (omega (arith, v.ledger.accounted, v.ledger.free_size)) in
      let (size, position) =
        produce-position s.fifo.free_mem_queue q bytes s.fifo.free_mem_queue.consumer_waiting e in
      rw (e, writer_move)
        (after_return s.fifo s.reader bytes s.input s.output q v valid size position more)

copied-StaysSound :
    (s : System) (write_ok : Bool) (buf : Bytes)
    → Inv s.fifo s.reader (copied buf) s.input s.output
    → StaysSound (writer_move write_ok s (copied buf))
unfolding writer_move
copied-StaysSound s true buf v = after_output s.fifo s.reader 0 s.input s.output buf v
copied-StaysSound s false buf v = tt

writer_move-StaysSound :
    (s : System) (write_ok : Bool) (w : Writer)
    → Inv s.fifo s.reader w s.input s.output
    → StaysSound (writer_move write_ok s w)
unfolding writer_move
writer_move-StaysSound s write_ok await_bytes v = await_bytes-StaysSound s write_ok v
writer_move-StaysSound s write_ok (has_bytes pos bytes) v =
    has_bytes-StaysSound s write_ok pos bytes v
writer_move-StaysSound s write_ok (copied buf) v = copied-StaysSound s write_ok buf v
writer_move-StaysSound s write_ok (written bytes) v =
    after_take s.fifo s.reader bytes s.input s.output v
writer_move-StaysSound s write_ok (consumed bytes) v = consumed-StaysSound s write_ok bytes v
writer_move-StaysSound s write_ok writer_done v = tt

-- writer_step keeps the invariant
pub writer_step-StaysSound :
    (s : System) (write_ok : Bool) → IsSound s → StaysSound (writer_step write_ok s)
writer_step-StaysSound s write_ok v = writer_move-StaysSound s write_ok s.writer v
