-- ===== src/ReceiveData/Tests.antt =====
-- An end marker that comes too early, one that ends the transfer, and the theorem at it.
use udpcast_rs.Base.{◌↔◌, ◌≡◌, refl, true, false, none, some, [], ◌∷◌, List, Bool, replicate}
use udpcast_rs.Fifo.{Fifo}
use udpcast_rs.Produconsum
use udpcast_rs.Produconsum.{Produconsum}
use udpcast_rs.ReceiveData.{
  Slice, receiving, Receiver, mark_completed, all_done, hand_over, end_transfer, complete_slice,
}
use udpcast_rs.ReceiveData.Ending.{MayEnd, complete_slice-ends}

abbrev queue : Produconsum
queue = record { size = 8; produced = 0; consumed = 0; at_end = false; consumer_waiting = false }

abbrev fifo : Fifo
fifo = record {
  buffer = replicate 8 0;
  data_buf_size = 8;
  free_mem_queue = record queue { produced = 8 };
  filled = queue;
}

-- Slice 2 is the end marker.
abbrev marker : Slice
marker = record {
  state = receiving;
  base = 0;
  slice_no = 2;
  blocks_transferred = 0;
  data_blocks_transferred = 0;
  bytes = 0;
  bytes_known = true;
  retransmit_map = replicate 128 0;
  fec_stripes = 0;
  fec_block_nos = [];
  fec_blocks = [];
}

abbrev receiver : List Bool → Slice → Receiver
receiver completed s = record {
  slice = s;
  fifo = fifo;
  client = record {
    is_started = true;
    completed_slices = completed;
    end_marker_seen = false;
    sent = [];
  };
}

-- What the receiver is after a slice is complete.
abbrev after : Receiver → Receiver
after r = elim (complete_slice r) [ none ↦ r | some r' ↦ r' ]

too_early : (after (receiver (true ∷ []) marker)).fifo.filled.at_end ≡ false
unfolding complete_slice mark_completed all_done end_transfer
too_early = refl

handed_over :
    ((after (receiver [] (record marker { bytes = 5 }))).fifo.filled.produced ≡ 5)
    × ((after (receiver [] (record marker { bytes = 5 }))).client.completed_slices
        ≡ false ∷ false ∷ true ∷ [])
unfolding complete_slice mark_completed hand_over Produconsum.produce Produconsum.advance
    Produconsum.overflows
handed_over = (refl, refl)

abbrev last : Receiver
last = receiver (true ∷ true ∷ []) marker

completes : complete_slice last ≡ some (after last)
unfolding complete_slice mark_completed all_done end_transfer Produconsum.produce_end
completes = refl

ends : (after last).fifo.filled.at_end ≡ true
unfolding complete_slice mark_completed all_done end_transfer Produconsum.produce_end
ends = refl

complete_slice-ends_example : ((after last).fifo.filled.at_end ≡ true) ↔ MayEnd last
complete_slice-ends_example = complete_slice-ends last (after last) completes
