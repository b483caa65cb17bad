-- ===== src/Fifo/RoundTrip.antt =====
-- The ring's contract: where `write_at` puts the bytes, what `read_at` returns, and that the one
-- undoes the other.
use mathlib.Core.Path.{subst}
use mathlib.Core.Option.{some-injective}
use udpcast_rs.Base.{
  sym, ap, ℕ, ◌+◌, ◌%◌, ◌<◌, ◌≤◌, ◌≡◌, ◌∙◌, some, arith, Bytes, length, get_or, ltb, if◌then◌else◌,
  get_or_ext,
}
use udpcast_rs.Fifo.{Fifo, write_at, read_at}
use udpcast_rs.Fifo.Ring.{IsValid, written, write_at-written, length-written, written_lem}
use udpcast_rs.Fifo.Window.{window, read_at-window, length-window, window_lem}

-- In a valid ring, writing bytes that fit in it at an offset within it does not panic, keeps the
-- ring's length, and puts byte k at the offset plus k modulo the size, every other byte of the ring
-- kept.
pub write_at_lem :
    (f : Fifo) (offset : ℕ) (bytes : Bytes)
    → IsValid f
    → offset < f.data_buf_size
    → length bytes ≤ f.data_buf_size
    → (b : Bytes) × (write_at f offset bytes ≡ some (record f { buffer = b }))
      × (length b ≡ f.data_buf_size)
      × ((k : ℕ)
          → k < f.data_buf_size
          → get_or b ((offset + k) % f.data_buf_size) 0 ≡ (
              if ltb k (length bytes)
              then get_or bytes k 0
              else get_or f.buffer ((offset + k) % f.data_buf_size) 0))
write_at_lem f offset bytes v o l = (
  written f offset bytes,
  write_at-written f offset bytes v o l,
  length-written f offset bytes v o l,
  written_lem f offset bytes v o l,
)

-- In a valid ring, reading up to its size at an offset within it does not panic and returns that
-- many bytes, byte k being the ring's at the offset plus k modulo the size.
pub read_at_lem :
    (f : Fifo) (offset n : ℕ)
    → IsValid f
    → offset < f.data_buf_size
    → n ≤ f.data_buf_size
    → (b : Bytes) × (read_at f offset n ≡ some b)
      × (length b ≡ n)
      × ((k : ℕ) → k < n → get_or b k 0 ≡ get_or f.buffer ((offset + k) % f.data_buf_size) 0)
read_at_lem f offset n v o l = (
  window f offset n,
  read_at-window f v offset n o l,
  length-window f v offset n o l,
  window_lem f v offset n o l,
)

module _ (f : Fifo) (offset : ℕ) (bytes : Bytes) (v : IsValid f) (o : offset < f.data_buf_size)
    (l : length bytes ≤ f.data_buf_size) where
  after : Fifo
  after = record f { buffer = written f offset bytes }

  after-IsValid : IsValid after
  unfolding after
  after-IsValid = record { whole = length-written f offset bytes v o l; small = v.small }

  window-after : window after offset (length bytes) ≡ bytes
  unfolding after
  window-after =
      get_or_ext 0 (window after offset (length bytes)) bytes
        (length-window after after-IsValid offset (length bytes) o l)
        (λ i lt. same i (rw (length-window after after-IsValid offset (length bytes) o l) at lt))
    where
      same :
          (i : ℕ)
          → i < length bytes
          → get_or (window after offset (length bytes)) i 0 ≡ get_or bytes i 0
      same i lt = ground (
        arith,
        window_lem after after-IsValid offset (length bytes) o l i lt,
        written_lem f offset bytes v o l i,
      )

  read_at-after : read_at after offset (length bytes) ≡ some bytes
  unfolding after
  read_at-after =
      read_at-window after after-IsValid offset (length bytes) o l ∙ ap some window-after

-- In a valid ring, bytes that fit in it and are written at an offset within it are read back at
-- that offset, round the end of the ring too.
pub read_at-write_at :
    (f g : Fifo) (offset : ℕ) (bytes : Bytes)
    → IsValid f
    → offset < f.data_buf_size
    → length bytes ≤ f.data_buf_size
    → write_at f offset bytes ≡ some g
    → read_at g offset (length bytes) ≡ some bytes
read_at-write_at f g offset bytes v o l e =
    subst (λ h. read_at h offset (length bytes) ≡ some bytes)
      (some-injective _ _ (sym (write_at-written f offset bytes v o l) ∙ e))
      (unfold after in read_at-after f offset bytes v o l)
