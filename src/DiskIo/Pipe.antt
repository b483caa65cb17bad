-- ===== src/DiskIo/Pipe.antt =====
-- What a run of the two threads promises: the output is what was read, in order and whole.
use mathlib.Core.List.{append-nil}
use mathlib.Core.Option.{some-injective}
use udpcast_rs.Base.{
  ℕ, ◌≤◌, ◌≡◌, refl, sym, ap, ◌∙◌, subst, arith, Bool, true, some, [], ◌++◌, Bytes, drop,
}
use udpcast_rs.Produconsum.Counters.{max_size}
use udpcast_rs.Fifo
use udpcast_rs.Fifo.{Fifo, read_at, write_at}
use udpcast_rs.Fifo.Window.{length-window}
use udpcast_rs.Base.{◌*◌}
use udpcast_rs.DiskIo.{
  Reader, await_room, has_room, has_read, claimed, stored, reader_done, Writer, writer_done, System,
  Outcome, blocked, exited, crashed, stepped, ReadResult, writer_step, reader_step,
}
use udpcast_rs.DiskIo.Position.{position-lt}
use udpcast_rs.DiskIo.Invariant.{amount, place, contents, in_reader, already, Ledger, StaysSound}
use udpcast_rs.DiskIo.Ending.{ReaderEnd, WriterEnd}
use udpcast_rs.DiskIo.Start.{start, no_bytes, new-Started}
use udpcast_rs.DiskIo.Reading.{Fits, reader_step-StaysSound}
use udpcast_rs.DiskIo.Writing.{writer_step-StaysSound}
use udpcast_rs.DiskIo.Schedule.{Run, Holds, Run-Holds}

-- The bytes that were read and are not written yet: those in the ring, and those that the reader
-- holds.
abbrev pub in_transit : System → Bytes
in_transit s = drop (already s.writer) (contents s.fifo) ++ in_reader s.reader

abbrev pub NoCrash : Outcome → Type 0
NoCrash crashed = ⊥
NoCrash _ = Unit

StaysSound-NoCrash : (o : Outcome) → StaysSound o → NoCrash o
StaysSound-NoCrash blocked k = tt
StaysSound-NoCrash exited k = tt
StaysSound-NoCrash crashed k = k
StaysSound-NoCrash (stepped s) k = tt

ReaderEnd-done : (f : Fifo) (r : Reader) → ReaderEnd f r → f.filled.at_end ≡ true → r ≡ reader_done
ReaderEnd-done f await_room k e = absurd (cc (k, e))
ReaderEnd-done f (has_room pos bytes) k e = absurd (cc (k, e))
ReaderEnd-done f (has_read pos buf) k e = absurd (cc (k, e))
ReaderEnd-done f (claimed pos buf) k e = absurd (cc (k, e))
ReaderEnd-done f (stored pos buf) k e = absurd (cc (k, e))
ReaderEnd-done f reader_done k e = refl

module _ (blocks : ℕ) (f : Fifo) (s : System) (h : 2 ≤ blocks) (l : blocks * 4096 ≤ max_size)
    (e : Fifo.new blocks ≡ some f) (run : Run (start f) s) where
  first : Holds (start f)
  first =
      let (g, e', k) = new-Started blocks (omega arith) l in
      subst (λ (g : Fifo). Holds (start g)) (some-injective _ _ (sym e' ∙ e))
        record { sound = k.sound; ends = k.ends; blocks = omega (arith, k.whole) }

  now : Holds s
  now = Run-Holds first run

  -- Take a ring that `Fifo::new` makes of 2 or more blocks of 4096 bytes, up to 2 ^ 61 bytes in
  -- all. After any interleaving of steps of the reader and the writer, with any results of `read`
  -- that fit the buffer and any of `write_all`, what was read is what was written, followed by what
  -- is in transit, in order.
  pub input-output : s.input ≡ s.output ++ in_transit s
  input-output = now.sound.stream

  -- With such a ring and after any such interleaving, the next step of either thread, with any
  -- result of `read` that fits the buffer and any of `write_all`, does not panic and meets no
  -- overflow of a queue.
  pub run-NoCrash :
      (result : ReadResult) (write_ok : Bool)
      → Fits s.reader result
      → NoCrash (reader_step result s) × NoCrash (writer_step write_ok s)
  run-NoCrash result write_ok fits = (
    StaysSound-NoCrash (reader_step result s) (reader_step-StaysSound s result fits now.sound),
    StaysSound-NoCrash (writer_step write_ok s) (writer_step-StaysSound s write_ok now.sound),
  )

  writer_done-end : s.writer ≡ writer_done → (s.fifo.filled.at_end ≡ true) × (amount s.fifo ≡ 0)
  writer_done-end w = subst (WriterEnd s.fifo) w now.ends.writer_end

  -- With such a ring and after any such interleaving, when the writer is done the output is the
  -- whole of what was read, and the reader is done too.
  pub output_complete : s.writer ≡ writer_done → (s.output ≡ s.input) × (s.reader ≡ reader_done)
  output_complete w = (sym all, reader)
    where
      reader : s.reader ≡ reader_done
      reader = ReaderEnd-done s.fifo s.reader now.ends.reader_end (writer_done-end w).0

      ledger : Ledger s.fifo s.reader s.writer
      ledger = now.sound.ledger

      empty : contents s.fifo ≡ []
      empty = no_bytes (contents s.fifo) (
          length-window s.fifo ledger.ring (place s.fifo) (amount s.fifo)
            (omega (arith, position-lt s.fifo.filled ledger.filled, ledger.filled_size))
            (omega (arith, ledger.accounted))
          ∙ (writer_done-end w).1)

      all : s.input ≡ s.output
      all =
          now.sound.stream
          ∙ ap
              (λ (v : Writer).
                s.output ++ (drop (already v) (contents s.fifo) ++ in_reader s.reader))
              w
          ∙ ap (λ (r : Reader). s.output ++ (contents s.fifo ++ in_reader r)) reader
          ∙ ap (λ (l : Bytes). s.output ++ (l ++ [])) empty
          ∙ append-nil s.output
