-- ===== src/DiskIo/Closing.antt =====
-- How the steps of the two threads treat the end of the input.
use udpcast_rs.Base.{
  ℕ, ◌≤◌, ◌≡◌, refl, ◌∙◌, arith, Bool, true, false, [], ◌∷◌, length, inl, inr, Option-cases,
  Bool-cases, if◌then◌else◌, ◌==◌,
}
use udpcast_rs.Produconsum.{
  Consumed, get_produced_amount, get_consumer_position, consume_amount, produce_end,
}
use udpcast_rs.Produconsum.Counters.{IsValid, produce_lem}
use udpcast_rs.Fifo.{read_at}
use udpcast_rs.DiskIo.{
  Reader, await_room, has_room, has_read, claimed, stored, reader_done, Writer, await_bytes,
  has_bytes, copied, written, consumed, writer_done, System, stepped, ReadResult, read_error, got,
  await, stop_reader, finish_read, writer_bytes, writer_move, writer_step, reader_bytes,
  reader_move, reader_step,
}
use udpcast_rs.DiskIo.Position.{
  Alike, Alike-amount, position-lt, await_lem, await-end, produce-end, consume_amount-end,
}
use udpcast_rs.DiskIo.Stretch.{write_at-behind}
use udpcast_rs.DiskIo.Invariant.{amount, place, Inv, IsSound}
use udpcast_rs.DiskIo.Ending.{
  Ends, StaysEnding, reader_bytes_positive, WriterEnd-open, WriterEnd-ended, ReaderEnd-keep,
}

reader_end_read :
    (s : System) (pos bytes : ℕ) (result : ReadResult)
    → Ends s.fifo (has_room pos bytes) s.writer
    → StaysEnding (finish_read s pos bytes result)
unfolding finish_read produce_end
reader_end_read s pos bytes read_error k = tt
reader_end_read s pos bytes (got []) k = record {
  reader_end = refl;
  writer_end =
      WriterEnd-open s.fifo (record s.fifo { filled = record s.fifo.filled { at_end = true } })
        s.writer k.reader_end k.writer_end;
  free_open = k.free_open;
}
reader_end_read s pos bytes (got (b ∷ bs)) k = record {
  reader_end = k.reader_end;
  writer_end = k.writer_end;
  free_open = k.free_open;
}

reader_end_await :
    (s : System) (result : ReadResult)
    → IsValid s.fifo.free_mem_queue
    → Ends s.fifo await_room s.writer
    → StaysEnding (reader_move result s await_room)
unfolding reader_move
reader_end_await s result v k = elim (Option-cases (await s.fifo.free_mem_queue)) [
  | inl e ↦ rw (e, reader_move) tt
  | inr (r, e) ↦ rw (e, reader_move) (taken_up r (await-end s.fifo.free_mem_queue r v e))
]
  where
    pos : ℕ
    pos = get_consumer_position s.fifo.free_mem_queue

    taken_up :
        (r : Consumed)
        → (r.queue.at_end ≡ s.fifo.free_mem_queue.at_end)
          × (r.amount ≡ 0
              → (s.fifo.free_mem_queue.at_end ≡ true)
                × (get_produced_amount s.fifo.free_mem_queue ≡ 0))
        → StaysEnding (
            let f = record s.fifo { free_mem_queue = r.queue } in
            let bytes = reader_bytes pos r.amount in
            if bytes == 0
            then stop_reader s f
            else stepped (record s { fifo = f; reader = has_room pos bytes }))
    taken_up r (same, nothing) = elim (Bool-cases (reader_bytes pos r.amount == 0)) [
      | inl e ↦
          absurd
            (cc ((nothing (reader_bytes_positive pos r.amount (ground (arith, e)))).0, k.free_open))
      | inr e ↦ rw e record {
        reader_end = k.reader_end;
        writer_end =
            WriterEnd-ended s.fifo (record s.fifo { free_mem_queue = r.queue }) s.writer refl refl
              k.writer_end;
        free_open = same ∙ k.free_open;
      }
    ]

reader_move-StaysEnding :
    (s : System) (result : ReadResult) (r : Reader)
    → Inv s.fifo r s.writer s.input s.output
    → Ends s.fifo r s.writer
    → StaysEnding (reader_move result s r)
unfolding reader_move
reader_move-StaysEnding s result await_room v k = reader_end_await s result v.ledger.free k
reader_move-StaysEnding s result (has_room pos bytes) v k = reader_end_read s pos bytes result k
reader_move-StaysEnding s result (has_read pos buf) v k = record {
  reader_end = k.reader_end;
  writer_end = k.writer_end;
  free_open = consume_amount-end s.fifo.free_mem_queue (length buf) ∙ k.free_open;
}
reader_move-StaysEnding s result (claimed pos buf) v k =
    let (b, e, done_write) =
      write_at-behind s.fifo (place s.fifo) (amount s.fifo) buf v.ledger.ring
        (omega (arith, position-lt s.fifo.filled v.ledger.filled, v.ledger.filled_size))
        (omega (arith, v.ledger.accounted)) in
    rw (v.reader_ok, e, reader_move)
      record { reader_end = k.reader_end; writer_end = k.writer_end; free_open = k.free_open }
reader_move-StaysEnding s result (stored pos buf) v k =
    let (q, e, valid, more, c) =
      produce_lem s.fifo.filled (length buf) v.ledger.filled
        (omega (arith, v.ledger.accounted, v.ledger.filled_size)) in
    rw (e, reader_move)
      record {
        reader_end =
            produce-end s.fifo.filled q (length buf) s.fifo.filled.consumer_waiting e
            ∙ k.reader_end;
        writer_end =
            WriterEnd-open s.fifo (record s.fifo { filled = q }) s.writer k.reader_end k.writer_end;
        free_open = k.free_open;
      }
reader_move-StaysEnding s result reader_done v k = tt

writer_end_await :
    (s : System) (write_ok : Bool)
    → IsValid s.fifo.filled
    → Ends s.fifo s.reader await_bytes
    → StaysEnding (writer_move write_ok s await_bytes)
unfolding writer_move
writer_end_await s write_ok v k = elim (Option-cases (await s.fifo.filled)) [
  | inl e ↦ rw (e, writer_move) tt
  | inr (r, e) ↦
      rw (e, writer_move) (taken_up r (await-end s.fifo.filled r v e) (await_lem s.fifo.filled r e))
]
  where
    pos : ℕ
    pos = get_consumer_position s.fifo.filled

    taken_up :
        (r : Consumed)
        → (r.queue.at_end ≡ s.fifo.filled.at_end)
          × (r.amount ≡ 0 → (s.fifo.filled.at_end ≡ true) × (amount s.fifo ≡ 0))
        → Alike s.fifo.filled r.queue × (r.amount ≤ amount s.fifo)
        → StaysEnding (
            let f = record s.fifo { filled = r.queue } in
            if r.amount == 0
            then stepped (record s { fifo = f; writer = writer_done })
            else stepped (record s {
              fifo = f;
              writer = has_bytes pos (writer_bytes f.filled.size pos r.amount);
            }))
    taken_up r (same, nothing) (a, le) = elim (Bool-cases (r.amount == 0)) [
      | inl e ↦ rw e record {
        reader_end =
            ReaderEnd-keep s.fifo (record s.fifo { filled = r.queue }) s.reader same k.reader_end;
        writer_end = (
          same ∙ (nothing (ground (arith, e))).0,
          Alike-amount s.fifo.filled r.queue a ∙ (nothing (ground (arith, e))).1,
        );
        free_open = k.free_open;
      }
      | inr e ↦ rw e record {
        reader_end =
            ReaderEnd-keep s.fifo (record s.fifo { filled = r.queue }) s.reader same k.reader_end;
        writer_end = tt;
        free_open = k.free_open;
      }
    ]

writer_move-StaysEnding :
    (s : System) (write_ok : Bool) (w : Writer)
    → Inv s.fifo s.reader w s.input s.output
    → Ends s.fifo s.reader w
    → StaysEnding (writer_move write_ok s w)
unfolding writer_move
writer_move-StaysEnding s write_ok await_bytes v k = writer_end_await s write_ok v.ledger.filled k
writer_move-StaysEnding s write_ok (has_bytes pos bytes) v k =
    elim (Option-cases (read_at s.fifo pos bytes)) [
      | inl e ↦ rw (e, writer_move) tt
      | inr (buf, e) ↦
          rw (e, writer_move)
            record { reader_end = k.reader_end; writer_end = tt; free_open = k.free_open }
    ]
writer_move-StaysEnding s true (copied buf) v k = record {
  reader_end = k.reader_end;
  writer_end = tt;
  free_open = k.free_open;
}
writer_move-StaysEnding s false (copied buf) v k = tt
writer_move-StaysEnding s write_ok (written bytes) v k = record {
  reader_end =
      ReaderEnd-keep s.fifo (record s.fifo { filled = consume_amount s.fifo.filled bytes }) s.reader
        (consume_amount-end s.fifo.filled bytes) k.reader_end;
  writer_end = tt;
  free_open = k.free_open;
}
writer_move-StaysEnding s write_ok (consumed bytes) v k =
    let (q, e, valid, more, c) =
      produce_lem s.fifo.free_mem_queue bytes v.ledger.free
        (omega (arith, v.ledger.accounted, v.ledger.free_size)) in
    rw (e, writer_move)
      record {
        reader_end =
            ReaderEnd-keep s.fifo (record s.fifo { free_mem_queue = q }) s.reader refl k.reader_end;
        writer_end = tt;
        free_open =
            produce-end s.fifo.free_mem_queue q bytes s.fifo.free_mem_queue.consumer_waiting e
            ∙ k.free_open;
      }
writer_move-StaysEnding s write_ok writer_done v k = tt

pub reader_step-StaysEnding :
    (s : System) (result : ReadResult)
    → IsSound s
    → Ends s.fifo s.reader s.writer
    → StaysEnding (reader_step result s)
reader_step-StaysEnding s result v k = reader_move-StaysEnding s result s.reader v k

pub writer_step-StaysEnding :
    (s : System) (write_ok : Bool)
    → IsSound s
    → Ends s.fifo s.reader s.writer
    → StaysEnding (writer_step write_ok s)
writer_step-StaysEnding s write_ok v k = writer_move-StaysEnding s write_ok s.writer v k
