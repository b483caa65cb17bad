-- ===== src/DiskIo/Schedule.antt =====
-- Runs of the two threads: their steps in any order, from a new ring.
use udpcast_rs.Base.{
  ℕ, ◌≤◌, ◌≡◌, refl, subst, arith, Bool, true, false, [], ◌∷◌, inl, inr, Option-cases,
}
use udpcast_rs.Produconsum.{produce_end}
use udpcast_rs.Fifo.{write_at}
use udpcast_rs.Fifo.Ring.{write_at-size}
use udpcast_rs.Fifo.Ring.{write_at-size}
use udpcast_rs.Base.{◌*◌}
use udpcast_rs.DiskIo.{
  block_size, Reader, await_room, has_room, has_read, claimed, stored, reader_done, Writer,
  await_bytes, has_bytes, copied, written, consumed, writer_done, System, Outcome, stepped,
  ReadResult, read_error, got, finish_read, writer_move, writer_step, reader_move, reader_step,
}
use udpcast_rs.DiskIo.Invariant.{IsSound, StaysSound}
use udpcast_rs.DiskIo.Ending.{Ends, StaysEnding}
use udpcast_rs.DiskIo.Reading.{Fits, reader_step-StaysSound}
use udpcast_rs.DiskIo.Writing.{writer_step-StaysSound}
use udpcast_rs.DiskIo.Closing.{reader_step-StaysEnding, writer_step-StaysEnding}

-- One step of either thread, with what the environment answers.
pub data Step : System → System → Type 0 where
  read :
      (s s' : System) (result : ReadResult)
      → Fits s.reader result
      → reader_step result s ≡ stepped s'
      → Step s s'
  write : (s s' : System) (write_ok : Bool) → writer_step write_ok s ≡ stepped s' → Step s s'

pub data Run (s : System) : System → Type 0 where
  here : Run s s
  next : {t u : System} → Run s t → Step t u → Run s u

abbrev KeepsSize : ℕ → Outcome → Type 0
KeepsSize n (stepped s) = s.fifo.data_buf_size ≡ n
KeepsSize n _ = Unit

finish_read-size :
    (s : System) (pos bytes : ℕ) (result : ReadResult)
    → KeepsSize s.fifo.data_buf_size (finish_read s pos bytes result)
unfolding finish_read produce_end
finish_read-size s pos bytes read_error = tt
finish_read-size s pos bytes (got []) = refl
finish_read-size s pos bytes (got (b ∷ bs)) = refl

reader_move-size :
    (result : ReadResult) (s : System) (r : Reader)
    → KeepsSize s.fifo.data_buf_size (reader_move result s r)
unfolding reader_move
reader_move-size result s await_room = ground arith
reader_move-size result s (has_room pos bytes) = finish_read-size s pos bytes result
reader_move-size result s (has_read pos buf) = refl
reader_move-size result s (claimed pos buf) = elim (Option-cases (write_at s.fifo pos buf)) [
  | inl e ↦ rw (e, reader_move) tt
  | inr (f, e) ↦ rw (e, reader_move) (write_at-size s.fifo f pos buf e)
]
reader_move-size result s (stored pos buf) = ground arith
reader_move-size result s reader_done = tt

writer_move-size :
    (write_ok : Bool) (s : System) (w : Writer)
    → KeepsSize s.fifo.data_buf_size (writer_move write_ok s w)
unfolding writer_move
writer_move-size write_ok s await_bytes = ground arith
writer_move-size write_ok s (has_bytes pos bytes) = ground arith
writer_move-size true s (copied buf) = refl
writer_move-size false s (copied buf) = tt
writer_move-size write_ok s (written bytes) = refl
writer_move-size write_ok s (consumed bytes) = ground arith
writer_move-size write_ok s writer_done = tt

-- What holds between any two steps.
pub record Holds (s : System) : Type 0 where
  pub sound : IsSound s
  pub ends : Ends s.fifo s.reader s.writer
  pub blocks : 2 * block_size ≤ s.fifo.data_buf_size

pub Step-Holds : {s t : System} → Step s t → Holds s → Holds t
Step-Holds (read s s' result fits e) h = record {
  sound = subst StaysSound e (reader_step-StaysSound s result fits h.sound);
  ends = subst StaysEnding e (reader_step-StaysEnding s result h.sound h.ends);
  blocks = omega (
    arith,
    h.blocks,
    subst (KeepsSize s.fifo.data_buf_size) e (reader_move-size result s s.reader),
  );
}
Step-Holds (write s s' write_ok e) h = record {
  sound = subst StaysSound e (writer_step-StaysSound s write_ok h.sound);
  ends = subst StaysEnding e (writer_step-StaysEnding s write_ok h.sound h.ends);
  blocks = omega (
    arith,
    h.blocks,
    subst (KeepsSize s.fifo.data_buf_size) e (writer_move-size write_ok s s.writer),
  );
}

pub Run-Holds : {s t : System} → Holds s → Run s t → Holds t
Run-Holds h here = h
Run-Holds h (next r st) = Step-Holds st (Run-Holds h r)
