-- ===== src/SendData/Drop/Tests.antt =====
-- A receiver that never answered is dropped, one that joined late keeps its budget.
use udpcast_rs.Base.{ℕ, zero, suc, refl, arith, false, some}
use udpcast_rs.Bitmap.{set_bit}
use udpcast_rs.Bitmap.Laws.{bit_is_set-set_bit, bit_is_set-zeros, zeros-IsBytes}
use udpcast_rs.Participants.{
  SocketAddrV4, ParticipantsDb, new, is_participant_valid, add_participant, lookup_participant,
  lookup_from, free_from, mark_answered, stamp, other_slice,
}
use udpcast_rs.Participants.Invariant
use udpcast_rs.SendData.{Slice, new_slice, no_bits, xmitted, reducing, NetConfig, flag_sn}
use udpcast_rs.SendData.Messages.Members.{Within}
use udpcast_rs.SendData.Drop.{drop_participants}
use udpcast_rs.SendData.Drop.Budget.{drop_participants-IsValid}

abbrev address : ℕ → SocketAddrV4
address n = record { ip = 0xC0A80000; port = n }

-- Three participants; the last of them first answered slice 0 in round 100.
abbrev joined : ℕ → ParticipantsDb → ParticipantsDb
joined n db = (add_participant db (address n) 73 212992 false).1

abbrev db : ParticipantsDb
db = mark_answered (joined 3 (joined 2 (joined 1 new))) 2 (some 0) 100

db-IsValid : Invariant.IsValid db
db-IsValid = Invariant.mark_answered-IsValid (joined 3 (joined 2 (joined 1 new))) 2 (some 0) 100 (
    Invariant.add_participant-IsValid (joined 2 (joined 1 new)) (address 3) 73 212992 false (
      Invariant.add_participant-IsValid (joined 1 new) (address 2) 73 212992 false
        (Invariant.add_participant-IsValid new (address 1) 73 212992 false Invariant.new-IsValid)))

abbrev config : NetConfig
config = record {
  flags = flag_sn;
  block_size = 1024;
  slice_size = 130;
  max_slice = 1024;
  discovery = reducing;
  retries_until_drop = 200;
}

-- Slice 0 in its round 250: only the first participant has it.
abbrev old_slice : Slice
old_slice = record (new_slice 0) {
  state = xmitted;
  bytes = 4096;
  rxmit_id = 250;
  ready_set = set_bit 0 no_bits;
  nr_ready = 1;
}

drop_participants-IsValid_example : Invariant.IsValid (drop_participants config old_slice db)
drop_participants-IsValid_example = drop_participants-IsValid config old_slice db db-IsValid

old_slice-Within : Within db old_slice
unfolding is_participant_valid mark_answered stamp other_slice add_participant lookup_participant
    lookup_from free_from new
old_slice-Within zero h = refl
old_slice-Within (suc j) h = absurd (
    ground (
      arith,
      h,
      bit_is_set-set_bit 0 (suc j) no_bits (zeros-IsBytes 128) (omega arith),
      bit_is_set-zeros 128 (suc j),
    ))
