-- ===== src/Fifo/Tests.antt =====
-- Runs of the ring buffer, and its theorems at one ring.
use udpcast_rs.Base.{
  ℕ, ◌+◌, ◌%◌, ◌<◌, ◌≡◌, refl, arith, none, some, [], ◌∷◌, Bytes, length, get_or, ltb,
  if◌then◌else◌,
}
use udpcast_rs.Produconsum
use udpcast_rs.Fifo.{Fifo, copy_into, write_at, read_at}
use udpcast_rs.Fifo.Ring.{IsValid}
use udpcast_rs.Fifo.RoundTrip.{write_at_lem, read_at_lem, read_at-write_at}

abbrev ring : Fifo
ring = record {
  buffer = 0 ∷ 1 ∷ 2 ∷ 3 ∷ 4 ∷ [];
  data_buf_size = 5;
  free_mem_queue = Produconsum.new 5;
  filled = Produconsum.new 5;
}

abbrev bytes : Bytes
bytes = 7 ∷ 8 ∷ 9 ∷ []

-- The last byte goes round the end.
abbrev wrapped : Fifo
wrapped = record ring { buffer = 9 ∷ 1 ∷ 2 ∷ 7 ∷ 8 ∷ [] }

write_at_wraps : write_at ring 3 bytes ≡ some wrapped
unfolding write_at copy_into
write_at_wraps = refl

-- An offset past the end is out of range.
write_at_panics : write_at ring 9 bytes ≡ none
unfolding write_at copy_into
write_at_panics = refl

ring-IsValid : IsValid ring
ring-IsValid = record { whole = refl; small = omega arith }

write_at_lem_example :
    (b : Bytes) × (write_at ring 3 bytes ≡ some (record ring { buffer = b }))
    × (length b ≡ 5)
    × ((k : ℕ)
        → k < 5
        → get_or b ((3 + k) % 5) 0
          ≡ (if ltb k 3 then get_or bytes k 0 else get_or ring.buffer ((3 + k) % 5) 0))
write_at_lem_example = write_at_lem ring 3 bytes ring-IsValid (omega arith) (omega arith)

read_at_lem_example :
    (b : Bytes) × (read_at ring 3 4 ≡ some b)
    × (length b ≡ 4)
    × ((k : ℕ) → k < 4 → get_or b k 0 ≡ get_or ring.buffer ((3 + k) % 5) 0)
read_at_lem_example = read_at_lem ring 3 4 ring-IsValid (omega arith) (omega arith)

read_at-write_at_example : read_at wrapped 3 3 ≡ some bytes
read_at-write_at_example =
    read_at-write_at ring wrapped 3 bytes ring-IsValid (omega arith) (omega arith) write_at_wraps
