-- ===== src/ReceiveData/BlockTests.antt =====
-- A receiver with a small ring: blocks that arrive, a request that is answered, a lost block that a
-- FEC block brings back, and the theorems at them.
use udpcast_rs.Base.{
  ◌↔◌, ℕ, ◌<◌, ◌≡◌, refl, arith, false, not, ◌||◌, ◌&&◌, none, some, List, [], ◌∷◌, ◌++◌, Bytes,
  set, replicate, get_or-replicate, ltb,
}
use udpcast_rs.Bitmap.{test, bit_is_set, set_bit}
use udpcast_rs.Bitmap.Laws.{bit_is_set-zeros}
use udpcast_rs.Bitmap.Sizes.{zeros-IsCount, add-IsCount}
use udpcast_rs.Fifo.{Fifo, write_at}
use udpcast_rs.Produconsum.{Produconsum}
use udpcast_rs.Protocol.{DataBlock, Reqack, Retransmit}
use udpcast_rs.Protocol.Pack.{pack_data_block, unpack_retransmit}
use udpcast_rs.SendData as Sending
use udpcast_rs.SendData.Messages.{request_blocks}
use udpcast_rs.SendData.Answers.{nr_blocks}
use udpcast_rs.ReceiveData.{Slice, Client}
use udpcast_rs.ReceiveData.Table.{Table, slot, empty_slice, open_slice, answer}
use udpcast_rs.ReceiveData.Blocks.{take_block, store_block, learn_bytes}
use udpcast_rs.ReceiveData.Recover.{put_block, check_slice_complete, marked, enough_fec}
use udpcast_rs.ReceiveData.Requests.{told, answer_reqack}
use udpcast_rs.ReceiveData.Counts.{IsTallied}
use udpcast_rs.ReceiveData.Answering.{
  answer_reqack-panics_iff, answer_reqack-asks, answer_reqack-resends,
}
use udpcast_rs.ReceiveData.Holdings.{Stores}
use udpcast_rs.ReceiveData.Delivery.{TakesIn, take_block-Stores}
use udpcast_rs.ReceiveData.Loop.{initial_table, Config, Session, Pass, quiet, packet, run}
use udpcast_rs.ReceiveData.Safety.{IsArmed, EndsWell, AllInOrder, InOrder}
use udpcast_rs.ReceiveData.Leaving.{Reason, run_lem}

abbrev queue : Produconsum
queue = record { size = 1024; produced = 0; consumed = 0; at_end = false; consumer_waiting = false }

abbrev fifo : Fifo
fifo = record {
  buffer = replicate 1024 0;
  data_buf_size = 1024;
  free_mem_queue = record queue { produced = 1024 };
  filled = queue;
}

abbrev client : Client
client = record { is_started = false; completed_slices = []; end_marker_seen = false; sent = [] }

-- Slice 3 of 12 bytes, with block 1 in.
abbrev held_slice : Slice
held_slice = record (open_slice 3 0) {
  retransmit_map = set_bit 1 (replicate 128 0);
  data_blocks_transferred = 1;
}

abbrev table : Table
table = record { slices = held_slice ∷ []; current_slice = none; fifo = fifo; client = client }

held_slice-IsTallied : IsTallied held_slice
held_slice-IsTallied =
    add-IsCount (replicate 128 0) 0 1 zeros-IsCount (omega arith) (bit_is_set-zeros 128 1)

abbrev request : ℕ → Reqack
request bytes = record { slice_no = 3; bytes = bytes; rxmit = 5 }

answer_reqack-panics_iff_example :
    (1 < nr_blocks 2000 1) × (answer_reqack 1 table 0 (request 2000) ≡ none)
    ↔ (1024 < nr_blocks 2000 1)
answer_reqack-panics_iff_example =
    answer_reqack-panics_iff 1 0 table (request 2000) held_slice-IsTallied

-- The table after the request, which asks for three blocks of 4 bytes.
abbrev asked_table : Table
asked_table = record table { slices = set table.slices 0 (told (request 12) (slot table.slices 0)) }

answer_reqack-asks_example :
    (packet : Bytes) × (m : Retransmit) × (answer_reqack 4 table 0 (request 12)
      ≡ some (answer asked_table packet))
    × (unpack_retransmit packet ≡ some m)
    × ((j : ℕ)
        → bit_is_set j m.map ≡ (ltb j (nr_blocks 12 4) && bit_is_set j held_slice.retransmit_map))
    × (j : ℕ) × (j < nr_blocks 12 4)
    × (bit_is_set j m.map ≡ false)
answer_reqack-asks_example =
    answer_reqack-asks 4 0 table (request 12) held_slice-IsTallied (omega arith) (omega arith)
      (omega arith) (omega arith)

answer_reqack-resends_example :
    (packet : Bytes) × (m : Retransmit) × (answer_reqack 4 table 0 (request 12)
      ≡ some (answer asked_table packet))
    × (unpack_retransmit packet ≡ some m)
    × ((j : ℕ)
        → j < nr_blocks 12 4
        → bit_is_set j (request_blocks m.map (Sending.new_slice 0)).rxmit_map ≡ (
            bit_is_set j (Sending.new_slice 0).rxmit_map
            || not (bit_is_set j held_slice.retransmit_map)))
answer_reqack-resends_example =
    answer_reqack-resends 4 0 table (request 12) held_slice-IsTallied (omega arith) (omega arith)
      (omega arith) (omega arith) (Sending.new_slice 0) (unfold Sending.new_slice in refl)

-- Block 0 arrives for a slice that has nothing yet, in blocks of one byte.
abbrev sent : ℕ → Bytes
sent j = 7 ∷ []

abbrev block : DataBlock
block = record { slice_no = 3; block_no = 0; bytes = 2 }

abbrev opened_table : Table
opened_table = record table { slices = open_slice 3 0 ∷ [] }

abbrev after : Table
after = elim (take_block 1 opened_table 0 block (7 ∷ [])) [ none ↦ opened_table | some t ↦ t ]

arrives : take_block 1 opened_table 0 block (7 ∷ []) ≡ some after
unfolding take_block open_slice bit_is_set test store_block put_block write_at learn_bytes
    check_slice_complete marked enough_fec
arrives = refl

nothing_yet : Stores 1 sent (slot opened_table.slices 0) opened_table.fifo
unfolding open_slice
nothing_yet = record {
  room = record {
    valid = record { whole = refl; small = omega arith };
    some_bytes = omega arith;
    slice_fits = omega arith;
    small = omega arith;
    inside = omega arith;
  };
  tallied = zeros-IsCount;
  there = λ j lt b. ground (arith, bit_is_set-zeros 128 j, b);
}

take_block-Stores_example :
    Stores 1 sent (slot after.slices 0) after.fifo
    × TakesIn (slot opened_table.slices 0) 0 (slot after.slices 0)
unfolding open_slice
take_block-Stores_example =
    take_block-Stores 1 0 sent opened_table after block (7 ∷ []) (λ j. omega arith) (omega arith)
      refl refl arrives nothing_yet

-- A datagram with that block, then one that is too short, then nothing.
abbrev config : Config
config = record {
  block_size = 1;
  exit_wait_ms = 500;
  receive_timeout_secs = 10;
  server_addr = record { ip = 1; port = 9001 };
  control_addr = record { ip = 2; port = 9001 };
}

abbrev session : Session
session = record {
  table = initial_table fifo client;
  end_reached = false;
  drain_deadline = none;
  last_activity = 0;
}

abbrev passes : List Pass
passes =
    record {
      taken = [];
      freed = [];
      top = 1;
      poll = packet 2 17 (pack_data_block block ++ (7 ∷ []));
      wakeups = [];
      bottom = 3;
    }
    ∷ record {
      taken = 1 ∷ [];
      freed = [];
      top = 3;
      poll = packet 4 8 (pack_data_block block);
      wakeups = [];
      bottom = 4;
    }
    ∷ record { taken = []; freed = 1 ∷ []; top = 5; poll = quiet 6; wakeups = []; bottom = 6 }
    ∷ []

session-IsArmed : IsArmed config session
session-IsArmed = record {
  tallied = λ i. rw (get_or-replicate 8 i empty_slice) zeros-IsCount;
  unset = λ h. refl;
  armed = λ h. ground (arith, h);
}

run_lem_example :
    EndsWell config (run config session passes)
    × Reason config session passes (run config session passes)
run_lem_example =
    run_lem config session passes session-IsArmed
      (unfold AllInOrder InOrder in (omega arith, (omega arith, (tt, tt))))
