-- ===== src/DiskIo/Reading.antt =====
-- Every step of the reader keeps the invariant.
use mathlib.Core.List.{append-nil, append_assoc}
use udpcast_rs.Base.{
  ℕ, ◌≤◌, ◌≡◌, refl, sym, arith, true, [], ◌∷◌, ◌++◌, Bytes, length, drop, inl, inr, Option-cases,
  Bool-cases, if◌then◌else◌, ◌==◌,
}
use udpcast_rs.Produconsum.{
  Produconsum, Consumed, get_produced_amount, get_consumer_position, produce_end,
}
use udpcast_rs.Produconsum.Counters.{produce_lem}
use udpcast_rs.Fifo.{Fifo}
use udpcast_rs.DiskIo.{
  Reader, await_room, has_room, has_read, claimed, stored, reader_done, Writer, System, stepped,
  ReadResult, read_error, got, reader_bytes, await, stop_reader, finish_read, reader_move,
  reader_step,
}
use udpcast_rs.DiskIo.Position.{
  Alike, Alike-self, Alike-position, Alike-amount, position-lt, produce-position, await_lem,
}
use udpcast_rs.DiskIo.Requeue.{requeued, Inv-requeued}
use udpcast_rs.DiskIo.Stretch.{write_at-behind}
use udpcast_rs.DiskIo.Invariant.{
  amount, place, contents, reserved, in_reader, already, ReaderOk, Inv, IsSound, StaysSound,
}
use udpcast_rs.DiskIo.Filling.{after_claim, after_write, after_produce}

-- The input gives no more bytes than were asked for.
abbrev pub Fits : Reader → ReadResult → Type 0
Fits (has_room pos bytes) (got buf) = length buf ≤ bytes
Fits _ _ = Unit

-- The reader at another place of its loop at which it holds nothing.
reader_at :
    (f : Fifo) (r : Reader) (w : Writer) (input output : Bytes)
    → reserved r ≡ 0
    → in_reader r ≡ []
    → ReaderOk f r
    → Inv f await_room w input output
    → Inv f r w input output
reader_at f r w input output e h k v = record {
  ledger = record {
    ring = v.ledger.ring;
    free = v.ledger.free;
    filled = v.ledger.filled;
    free_size = v.ledger.free_size;
    filled_size = v.ledger.filled_size;
    accounted = rw e v.ledger.accounted;
    adjacent = rw e v.ledger.adjacent;
  };
  reader_ok = k;
  writer_ok = v.writer_ok;
  stream = rw h v.stream;
}

reader_bytes-le : (pos bytes : ℕ) → reader_bytes pos bytes ≤ bytes
unfolding reader_bytes
reader_bytes-le pos bytes = ground arith

-- What is asked for is free.
room :
    (q p : Produconsum) (a : Alike q p) (pos n : ℕ)
    → n ≤ get_produced_amount q
    → reader_bytes pos n ≤ get_produced_amount p
room q p a pos n le = omega (arith, Alike-amount q p a, reader_bytes-le pos n, le)

appended :
    (input output waiting more : Bytes)
    → input ≡ output ++ (waiting ++ [])
    → input ++ more ≡ output ++ (waiting ++ more)
appended input output waiting more e =
    rw (e, append-nil waiting, append_assoc output waiting more) refl

-- The same step of the invariant from a place at which the reader holds nothing.
from_room :
    (f : Fifo) (pos bytes : ℕ) (w : Writer) (input output : Bytes)
    → Inv f (has_room pos bytes) w input output
    → Inv f await_room w input output
from_room f pos bytes w input output v = record {
  ledger = record {
    ring = v.ledger.ring;
    free = v.ledger.free;
    filled = v.ledger.filled;
    free_size = v.ledger.free_size;
    filled_size = v.ledger.filled_size;
    accounted = v.ledger.accounted;
    adjacent = v.ledger.adjacent;
  };
  reader_ok = tt;
  writer_ok = v.writer_ok;
  stream = v.stream;
}

after_read :
    (s : System) (pos bytes : ℕ) (result : ReadResult)
    → Fits (has_room pos bytes) result
    → Inv s.fifo (has_room pos bytes) s.writer s.input s.output
    → StaysSound (finish_read s pos bytes result)
unfolding finish_read produce_end requeued
after_read s pos bytes read_error fits v = tt
after_read s pos bytes (got []) fits v =
    reader_at _ reader_done s.writer s.input s.output refl refl tt (
      Inv-requeued s.fifo s.fifo.free_mem_queue (record s.fifo.filled { at_end = true })
        (Alike-self s.fifo.free_mem_queue)
        (record { size = refl; produced = refl; consumed = refl }) await_room s.writer s.input
        s.output (from_room s.fifo pos bytes s.writer s.input s.output v))
after_read s pos bytes (got (b ∷ bs)) fits v = record {
  ledger = record {
    ring = v.ledger.ring;
    free = v.ledger.free;
    filled = v.ledger.filled;
    free_size = v.ledger.free_size;
    filled_size = v.ledger.filled_size;
    accounted = v.ledger.accounted;
    adjacent = v.ledger.adjacent;
  };
  reader_ok = (v.reader_ok.0, omega (arith, fits, v.reader_ok.1));
  writer_ok = v.writer_ok;
  stream = appended s.input s.output (drop (already s.writer) (contents s.fifo)) (b ∷ bs) v.stream;
}

module _ (s : System) (result : ReadResult) where
  await_room-StaysSound :
      Inv s.fifo await_room s.writer s.input s.output → StaysSound (reader_move result s await_room)
  unfolding requeued reader_move
  await_room-StaysSound v = elim (Option-cases (await s.fifo.free_mem_queue)) [
    | inl e ↦ rw (e, reader_move) tt
    | inr (r, e) ↦ rw (e, reader_move) (taken_up r (await_lem s.fifo.free_mem_queue r e))
  ]
    where
      pos : ℕ
      pos = get_consumer_position s.fifo.free_mem_queue

      taken_up :
          (r : Consumed)
          → Alike s.fifo.free_mem_queue r.queue
            × (r.amount ≤ get_produced_amount s.fifo.free_mem_queue)
          → StaysSound (
              let f = record s.fifo { free_mem_queue = r.queue } in
              let bytes = reader_bytes pos r.amount in
              if bytes == 0
              then stop_reader s f
              else stepped (record s { fifo = f; reader = has_room pos bytes }))
      taken_up r (a, le) = elim (Bool-cases (reader_bytes pos r.amount == 0)) [
        | inl e ↦ rw e (reader_at f reader_done s.writer s.input s.output refl refl tt v')
        | inr e ↦ rw e (
            reader_at f (has_room pos (reader_bytes pos r.amount)) s.writer s.input s.output refl
              refl
              (
                sym (Alike-position s.fifo.free_mem_queue r.queue a),
                room s.fifo.free_mem_queue r.queue a pos r.amount le,
              )
              v')
      ]
        where
          f : Fifo
          f = requeued s.fifo r.queue s.fifo.filled a (Alike-self s.fifo.filled)

          v' : Inv f await_room s.writer s.input s.output
          v' =
              Inv-requeued s.fifo r.queue s.fifo.filled a (Alike-self s.fifo.filled) await_room
                s.writer s.input s.output v

  has_read-StaysSound :
      (pos : ℕ) (buf : Bytes)
      → Inv s.fifo (has_read pos buf) s.writer s.input s.output
      → StaysSound (reader_move result s (has_read pos buf))
  unfolding reader_move
  has_read-StaysSound pos buf v = after_claim s.fifo pos buf s.writer s.input s.output v

  claimed-StaysSound :
      (pos : ℕ) (buf : Bytes)
      → Inv s.fifo (claimed pos buf) s.writer s.input s.output
      → StaysSound (reader_move result s (claimed pos buf))
  unfolding reader_move
  claimed-StaysSound pos buf v =
      let (b, e, k) =
        write_at-behind s.fifo (place s.fifo) (amount s.fifo) buf v.ledger.ring
          (omega (arith, position-lt s.fifo.filled v.ledger.filled, v.ledger.filled_size))
          (omega (arith, v.ledger.accounted)) in
      rw (v.reader_ok, e, reader_move) (after_write s.fifo pos buf b s.writer s.input s.output v k)

  stored-StaysSound :
      (pos : ℕ) (buf : Bytes)
      → Inv s.fifo (stored pos buf) s.writer s.input s.output
      → StaysSound (reader_move result s (stored pos buf))
  unfolding reader_move
  stored-StaysSound pos buf v =
      let (q, e, valid, more, c) =
        produce_lem s.fifo.filled (length buf) v.ledger.filled
          (omega (arith, v.ledger.accounted, v.ledger.filled_size)) in
      let (size, position) =
        produce-position s.fifo.filled q (length buf) s.fifo.filled.consumer_waiting e in
      rw (e, reader_move)
        (after_produce s.fifo pos buf s.writer s.input s.output v q valid size position more)

  -- Every step of the reader keeps the invariant.
  reader_move-StaysSound :
      (r : Reader)
      → Fits r result
      → Inv s.fifo r s.writer s.input s.output
      → StaysSound (reader_move result s r)
  unfolding reader_move
  reader_move-StaysSound await_room fits v = await_room-StaysSound v
  reader_move-StaysSound (has_room pos bytes) fits v = after_read s pos bytes result fits v
  reader_move-StaysSound (has_read pos buf) fits v = has_read-StaysSound pos buf v
  reader_move-StaysSound (claimed pos buf) fits v = claimed-StaysSound pos buf v
  reader_move-StaysSound (stored pos buf) fits v = stored-StaysSound pos buf v
  reader_move-StaysSound reader_done fits v = tt

-- reader_step keeps the invariant
pub reader_step-StaysSound :
    (s : System) (result : ReadResult)
    → Fits s.reader result
    → IsSound s
    → StaysSound (reader_step result s)
reader_step-StaysSound s result fits v = reader_move-StaysSound s result s.reader fits v
