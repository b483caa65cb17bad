-- ===== src/DiskIo/Tests.antt =====
-- A run of the two threads over a ring of two pages.
use udpcast_rs.Base.{zero, suc, ℕ, ◌≡◌, refl, arith, true, none, some, List, [], ◌∷◌, ◌++◌}
use udpcast_rs.Produconsum
use udpcast_rs.Fifo
use udpcast_rs.Fifo.{Fifo, write_at, read_at}
use udpcast_rs.DiskIo.{
  reader_done, System, Outcome, blocked, exited, crashed, stepped, ReadResult, got, reader_move,
  reader_step, writer_move, writer_step, writer_done, await, finish_read, reader_bytes,
  writer_bytes,
}
use udpcast_rs.DiskIo.Start.{start}
use udpcast_rs.DiskIo.Reading.{Fits}
use udpcast_rs.DiskIo.Schedule.{read, write, Run, here, next}
use udpcast_rs.DiskIo.Pipe.{NoCrash, in_transit, input-output, run-NoCrash, output_complete}

abbrev two_pages : Fifo
unfolding Fifo.new Produconsum.new Produconsum.produce
two_pages = elim (Fifo.new 2) [
  | none ↦ record {
    buffer = [];
    data_buf_size = 0;
    free_mem_queue = Produconsum.new 0;
    filled = Produconsum.new 0;
  }
  | some f ↦ f
]

two_pages-new : Fifo.new 2 ≡ some two_pages
unfolding Fifo.new Produconsum.new Produconsum.produce two_pages
two_pages-new = refl

-- What a step leaves; the state itself where it leaves none.
abbrev after : Outcome → System → System
after (stepped t) s = t
after _ s = s

-- Whether a step leaves a state.
abbrev IsStep : Outcome → Type 0
IsStep (stepped t) = Unit
IsStep _ = ⊥

after-stepped : (o : Outcome) (s : System) → IsStep o → o ≡ stepped (after o s)
after-stepped (stepped t) s h = refl
after-stepped blocked s h = elim h [ ]
after-stepped exited s h = elim h [ ]
after-stepped crashed s h = elim h [ ]

abbrev chunk : ReadResult
chunk = got (7 ∷ 8 ∷ 9 ∷ [])

-- The reader fills the ring and ends it.
abbrev filled_up : List ReadResult
filled_up = chunk ∷ chunk ∷ chunk ∷ chunk ∷ chunk ∷ got [] ∷ got [] ∷ []

abbrev read_all : List ReadResult → System → System
read_all [] s = s
read_all (r ∷ rs) s = read_all rs (after (reader_step r s) s)

abbrev write_all : ℕ → System → System
write_all zero s = s
write_all (suc n) s = write_all n (after (writer_step true s) s)

ended : System
ended = write_all 6 (read_all filled_up (start two_pages))

ended-output : ended.output ≡ 7 ∷ 8 ∷ 9 ∷ []
unfolding reader_move writer_move finish_read await reader_bytes writer_bytes write_at read_at
    Produconsum.produce Produconsum.produce_end Produconsum.consume_amount
    Produconsum.get_consumer_position Produconsum.get_produced_amount
    Produconsum.consume_contiguous_min_amount Produconsum.consume_any_inner Produconsum.clip
    Produconsum.enough Produconsum.stop_waiting Produconsum.wait_loop two_pages Fifo.new
    Produconsum.new ended
ended-output = refl

-- That every one of the steps is taken.
abbrev ReadsStep : List ReadResult → System → Type 0
ReadsStep [] s = Unit
ReadsStep (r ∷ rs) s =
    Fits s.reader r × IsStep (reader_step r s) × ReadsStep rs (after (reader_step r s) s)

abbrev WritesStep : ℕ → System → Type 0
WritesStep zero s = Unit
WritesStep (suc n) s = IsStep (writer_step true s) × WritesStep n (after (writer_step true s) s)

read_all-Run :
    (rs : List ReadResult) (s t : System) → Run s t → ReadsStep rs t → Run s (read_all rs t)
read_all-Run [] s t run h = run
read_all-Run (r ∷ rs) s t run h =
    read_all-Run rs s (after (reader_step r t) t)
      (next run (read t (after (reader_step r t) t) r h.0 (after-stepped (reader_step r t) t h.1)))
      h.2

write_all-Run : (n : ℕ) (s t : System) → Run s t → WritesStep n t → Run s (write_all n t)
write_all-Run zero s t run h = run
write_all-Run (suc n) s t run h =
    write_all-Run n s (after (writer_step true t) t)
      (next run
        (write t (after (writer_step true t) t) true (after-stepped (writer_step true t) t h.0)))
      h.1

-- The state in which the chunk is in the ring.
midway : System
midway = read_all (chunk ∷ chunk ∷ chunk ∷ chunk ∷ []) (start two_pages)

midway-Run : Run (start two_pages) midway
unfolding reader_move writer_move finish_read await reader_bytes writer_bytes write_at read_at
    Produconsum.produce Produconsum.produce_end Produconsum.consume_amount
    Produconsum.get_consumer_position Produconsum.get_produced_amount
    Produconsum.consume_contiguous_min_amount Produconsum.consume_any_inner Produconsum.clip
    Produconsum.enough Produconsum.stop_waiting Produconsum.wait_loop two_pages Fifo.new
    Produconsum.new midway
midway-Run =
    read_all-Run (chunk ∷ chunk ∷ chunk ∷ chunk ∷ []) (start two_pages) (start two_pages) here
      (tt, tt, (omega arith, tt, (tt, tt, (tt, tt, tt))))

ended-Run : Run (start two_pages) ended
unfolding reader_move writer_move finish_read await reader_bytes writer_bytes write_at read_at
    Produconsum.produce Produconsum.produce_end Produconsum.consume_amount
    Produconsum.get_consumer_position Produconsum.get_produced_amount
    Produconsum.consume_contiguous_min_amount Produconsum.consume_any_inner Produconsum.clip
    Produconsum.enough Produconsum.stop_waiting Produconsum.wait_loop two_pages Fifo.new
    Produconsum.new ended
ended-Run =
    write_all-Run 6 (start two_pages) (read_all filled_up (start two_pages))
      (read_all-Run filled_up (start two_pages) (start two_pages) here
        (tt, tt, (omega arith, tt, (tt, tt, (tt, tt, (tt, tt, (tt, tt, (omega arith, tt, tt))))))))
      (tt, (tt, (tt, (tt, (tt, (tt, tt))))))

midway-Fits : Fits midway.reader chunk
unfolding reader_move writer_move finish_read await reader_bytes writer_bytes write_at read_at
    Produconsum.produce Produconsum.produce_end Produconsum.consume_amount
    Produconsum.get_consumer_position Produconsum.get_produced_amount
    Produconsum.consume_contiguous_min_amount Produconsum.consume_any_inner Produconsum.clip
    Produconsum.enough Produconsum.stop_waiting Produconsum.wait_loop two_pages Fifo.new
    Produconsum.new midway
midway-Fits = tt

ended-writer : ended.writer ≡ writer_done
unfolding reader_move writer_move finish_read await reader_bytes writer_bytes write_at read_at
    Produconsum.produce Produconsum.produce_end Produconsum.consume_amount
    Produconsum.get_consumer_position Produconsum.get_produced_amount
    Produconsum.consume_contiguous_min_amount Produconsum.consume_any_inner Produconsum.clip
    Produconsum.enough Produconsum.stop_waiting Produconsum.wait_loop two_pages Fifo.new
    Produconsum.new ended
ended-writer = refl

input-output_example : midway.input ≡ midway.output ++ in_transit midway
input-output_example =
    input-output 2 two_pages midway (omega arith) (omega arith) two_pages-new midway-Run

run-NoCrash_example : NoCrash (reader_step chunk midway) × NoCrash (writer_step true midway)
run-NoCrash_example =
    run-NoCrash 2 two_pages midway (omega arith) (omega arith) two_pages-new midway-Run chunk true
      midway-Fits

output_complete_example : (ended.output ≡ ended.input) × (ended.reader ≡ reader_done)
output_complete_example =
    output_complete 2 two_pages ended (omega arith) (omega arith) two_pages-new ended-Run
      ended-writer
