-- ===== src/SendData/Messages.antt =====
-- `handle_next_message`: what an answer of a receiver does to the slices and the participants.
pub mod Counts
pub mod Members
pub mod Missing
use udpcast_rs.Base.{
  ℕ, suc, ◌+◌, ◌%◌, ◌^◌, Bool, true, false, not, Option, none, some, List, [], ◌∷◌, Bytes, get_or,
  set, if◌then◌else◌, bit_or, usize_sub, usize_add, map,
}
use udpcast_rs.Bitmap.{complement, bit_is_set, set_bit, clear_bit}
use udpcast_rs.Participants.{ParticipantsDb, mark_answered, remove_participant}
use udpcast_rs.Statistics
use udpcast_rs.Statistics.{SenderStats}
use udpcast_rs.SendData.{Slice, new_slice, find_slice}

pub data IncomingMsg : Type 0 where
  ok : (slice_no cl_no : ℕ) → IncomingMsg
  retransmit : (slice_no cl_no : ℕ) (map : Bytes) (rxmit : ℕ) → IncomingMsg
  disconnect : (cl_no : ℕ) → IncomingMsg

-- What the handler works on.
pub record Dispatch : Type 0 where
  pub slices : List Slice
  pub db : ParticipantsDb
  pub stats : SenderStats

-- The slice at an index; `find_slice` gives no index out of range.
abbrev pub slice_at : List Slice → ℕ → Slice
slice_at slices i = get_or slices i (new_slice 0)

-- The participant is counted once in the ready set, and once in the answered set.
unfoldable pub count_ready : ℕ → Slice → Slice
count_ready cl s =
    if bit_is_set cl s.ready_set
    then s
    else record s { ready_set = set_bit cl s.ready_set; nr_ready = usize_add s.nr_ready 1 }

unfoldable pub count_answered : ℕ → Slice → Slice
count_answered cl s = if bit_is_set cl s.answered_set then s else record s {
  answered_set = set_bit cl s.answered_set;
  nr_answered = usize_add s.nr_answered 1;
}

-- `rxmit_map[i] |= !map[i]` for every byte of the two arrays.
unfoldable pub merge_missing : Bytes → Bytes → Bytes
merge_missing [] map = []
merge_missing (r ∷ rs) [] = r ∷ rs
merge_missing (r ∷ rs) (m ∷ ms) = bit_or r (complement m) ∷ merge_missing rs ms

-- The blocks that the map lacks join those to be sent again.
unfoldable pub request_blocks : Bytes → Slice → Slice
request_blocks map s = record s { rxmit_map = merge_missing s.rxmit_map map; need_rxmit = true }

-- A participant that leaves no longer counts.
pub forget_ready : ℕ → Slice → Slice
forget_ready cl s =
    if bit_is_set cl s.ready_set
    then record s { ready_set = clear_bit cl s.ready_set; nr_ready = usize_sub s.nr_ready 1 }
    else s

pub forget_answered : ℕ → Slice → Slice
forget_answered cl s =
    if bit_is_set cl s.answered_set
    then record s {
      answered_set = clear_bit cl s.answered_set;
      nr_answered = usize_sub s.nr_answered 1;
    }
    else s

-- `stats.set_answered` is called where the ready set grows.
ready_stats : ℕ → Slice → SenderStats → SenderStats
ready_stats cl s stats =
    if bit_is_set cl s.ready_set then stats else Statistics.set_answered stats cl

-- One message, popped from the queue. The index in it is a participant's, below 1024, as the
-- thread that reads the sockets looks it up in the table; past that the source's arrays would panic.
unfoldable pub handle_message : IncomingMsg → Dispatch → Dispatch
unfolding ready_stats
handle_message (ok slice_no cl) d = elim (find_slice d.slices slice_no) [
  | none ↦ record d { db = mark_answered d.db cl none 0 }
  | some i ↦ record {
    slices = set d.slices i (count_answered cl (count_ready cl (slice_at d.slices i)));
    db = mark_answered d.db cl (some slice_no) (slice_at d.slices i).rxmit_id;
    stats = ready_stats cl (slice_at d.slices i) d.stats;
  }
]
handle_message (retransmit slice_no cl blocks rxmit) d = elim (find_slice d.slices slice_no) [
  | none ↦ record d { db = mark_answered d.db cl none 0 }
  | some i ↦ record d {
    slices = set d.slices i (count_answered cl (request_blocks blocks (slice_at d.slices i)));
    db = mark_answered d.db cl (some slice_no) (slice_at d.slices i).rxmit_id;
  }
]
handle_message (disconnect cl) d = record d {
  slices = map (λ s. forget_answered cl (forget_ready cl s)) d.slices;
  db = remove_participant d.db cl;
}

-- `rc.pop()`, and the handler if there was a message.
pub handle_next_message : List IncomingMsg → Dispatch → List IncomingMsg × Dispatch
handle_next_message [] d = ([], d)
handle_next_message (m ∷ queue) d = (queue, handle_message m d)
