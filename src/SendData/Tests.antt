-- ===== src/SendData/Tests.antt =====
-- A transfer of one slice to one receiver, and the sender's theorems at it.
use udpcast_rs.Base.{zero, suc, ◌≡◌, refl, arith, true, false, Option, none, some, List, [], ◌∷◌}
use udpcast_rs.Produconsum
use udpcast_rs.Statistics
use udpcast_rs.Bitmap.{test, bit_is_set, set_bit}
use udpcast_rs.Participants.{
  SocketAddrV4, ParticipantsDb, new, is_participant_valid, add_participant, lookup_participant,
  lookup_from, free_from, mark_answered,
}
use udpcast_rs.Participants.Invariant
use udpcast_rs.SendData.{
  Slice, new_slice, xmitted, doubling, NetConfig, flag_sn, free_slice, is_free, find_slice,
  find_from,
}
use udpcast_rs.SendData.Messages.{
  IncomingMsg, ok, Dispatch, slice_at, handle_message, count_ready, count_answered,
}
use udpcast_rs.SendData.Messages.Counts.{
  IsCounted, AllCounted, new_slice-IsCounted, handle_message-AllCounted,
}
use udpcast_rs.SendData.Messages.Members.{
  new_slice-Within, AllWithin, handle_message-AllWithin, handle_message-IsValid,
}
use udpcast_rs.SendData.Answers.{
  Sender, Transfer, at, all_ready, ack_slice, ack_and_free, ack_pass, all_answered, adapt, shrink,
  send_reqack, start_round, round_pass,
}
use udpcast_rs.SendData.Answers.Safety.{Everyone, Fate, all_ready-Everyone, ack_pass-Fate}
use udpcast_rs.SendData.Answers.Rounds.{AllSound, round_pass-AllSound}
use udpcast_rs.SendData.Answers.Adapt.{IsSized, send_reqack-IsSized}

abbrev addr : SocketAddrV4
addr = record { ip = 0xC0A80002; port = 9000 }

-- One participant.
abbrev db : ParticipantsDb
db = (add_participant new addr 9 212992 false).1

db-IsValid : Invariant.IsValid db
db-IsValid = Invariant.add_participant-IsValid new addr 9 212992 false Invariant.new-IsValid

-- Slice 0 has been sent.
abbrev sent_slice : Slice
sent_slice = record (new_slice 0) { state = xmitted; bytes = 4096; rxmit_id = 1 }

abbrev start : Dispatch
start = record { slices = sent_slice ∷ []; db = db; stats = Statistics.new }

no_answers : IsCounted sent_slice
unfolding new_slice
no_answers = record {
  ready = (new_slice-IsCounted 0).ready;
  answered = (new_slice-IsCounted 0).answered;
  included = (new_slice-IsCounted 0).included;
}

start-AllCounted : AllCounted start.slices
start-AllCounted zero = no_answers
start-AllCounted (suc i) = new_slice-IsCounted 0

start-AllWithin : AllWithin start.db start.slices
start-AllWithin zero = new_slice-Within db 0
start-AllWithin (suc i) = new_slice-Within db 0

-- The receiver's OK, and what it leaves.
abbrev answer : IncomingMsg
answer = ok 0 0

abbrev answered : Dispatch
answered = handle_message answer start

member : is_participant_valid db 0 ≡ true
unfolding is_participant_valid add_participant lookup_participant lookup_from free_from new
member = refl

handle_message-AllCounted_example : AllCounted answered.slices
handle_message-AllCounted_example =
    handle_message-AllCounted answer start start-AllCounted (omega arith)

handle_message-AllWithin_example : AllWithin answered.db answered.slices
handle_message-AllWithin_example =
    handle_message-AllWithin answer start start-AllCounted start-AllWithin (omega arith) member

-- What the two passes over the pending slices start from, before the answer and after it.
abbrev config : NetConfig
config = record {
  flags = flag_sn;
  block_size = 1024;
  slice_size = 130;
  max_slice = 1024;
  discovery = doubling;
  retries_until_drop = 200;
}

abbrev transfer : List Slice → Transfer
transfer slices = record {
  slices = slices;
  config = config;
  free_mem = record {
    size = 8192;
    produced = 0;
    consumed = 0;
    at_end = false;
    consumer_waiting = false;
  };
  stats = Statistics.new;
  sent = [];
  first_slice_acked = false;
}

everyone_ready : all_ready answered.db.nr_participants (slice_at answered.slices 0) ≡ true
unfolding all_ready handle_message count_ready count_answered find_slice find_from mark_answered
    add_participant lookup_participant lookup_from free_from new set_bit bit_is_set test new_slice
everyone_ready = refl

nobody_ready : all_ready start.db.nr_participants sent_slice ≡ false
unfolding all_ready add_participant lookup_participant lookup_from free_from new new_slice
nobody_ready = refl

answered-IsValid : Invariant.IsValid answered.db
answered-IsValid = handle_message-IsValid answer start db-IsValid

all_ready-Everyone_example : Everyone answered.db (slice_at answered.slices 0)
all_ready-Everyone_example =
    all_ready-Everyone answered.db (slice_at answered.slices 0) answered-IsValid
      (handle_message-AllCounted answer start start-AllCounted (omega arith) 0)
      (handle_message-AllWithin answer start start-AllCounted start-AllWithin (omega arith) member
        0)
      everyone_ready

-- What is there after a pass.
abbrev after : Option Transfer → Transfer → Transfer
after none t = t
after (some u) t = u

abbrev acknowledged : Transfer
acknowledged =
    after (ack_pass answered.db.nr_participants (0 ∷ []) (transfer answered.slices))
      (transfer answered.slices)

pass : ack_pass answered.db.nr_participants (0 ∷ []) (transfer answered.slices) ≡ some acknowledged
unfolding ack_pass ack_and_free ack_slice Produconsum.produce Produconsum.advance
    Produconsum.overflows all_ready handle_message count_ready count_answered find_slice find_from
    mark_answered add_participant lookup_participant lookup_from free_from new set_bit bit_is_set
    test new_slice
pass = refl

-- The slice's bytes are free memory now.
pass_frees :
    (is_free (slice_at acknowledged.slices 0).state ≡ true)
    × (acknowledged.free_mem.produced ≡ 4096)
unfolding ack_pass ack_and_free ack_slice free_slice Produconsum.produce Produconsum.advance
    Produconsum.overflows all_ready handle_message count_ready count_answered find_slice find_from
    mark_answered add_participant lookup_participant lookup_from free_from new set_bit bit_is_set
    test new_slice
pass_frees = (refl, refl)

ack_pass-Fate_example :
    Fate answered.db (slice_at answered.slices 0) (slice_at acknowledged.slices 0)
ack_pass-Fate_example =
    ack_pass-Fate answered.db (0 ∷ []) (transfer answered.slices) acknowledged answered-IsValid
      (handle_message-AllCounted answer start start-AllCounted (omega arith))
      (handle_message-AllWithin answer start start-AllCounted start-AllWithin (omega arith) member)
      pass 0

handle_message-IsValid_example : Invariant.IsValid answered.db
handle_message-IsValid_example = handle_message-IsValid answer start db-IsValid

-- A new round where everyone has answered.
abbrev asked : Transfer
asked =
    after (round_pass answered.db.nr_participants (0 ∷ []) (transfer answered.slices))
      (transfer answered.slices)

round : round_pass answered.db.nr_participants (0 ∷ []) (transfer answered.slices) ≡ some asked
unfolding round_pass all_answered start_round send_reqack handle_message count_ready count_answered
    find_slice find_from mark_answered add_participant lookup_participant lookup_from free_from new
    set_bit bit_is_set test new_slice
round = refl

round_pass-AllSound_example : AllSound answered.db asked.slices
round_pass-AllSound_example =
    round_pass-AllSound answered.db answered.db.nr_participants (0 ∷ []) (transfer answered.slices)
      asked
      (
        handle_message-AllCounted answer start start-AllCounted (omega arith),
        handle_message-AllWithin answer start start-AllCounted start-AllWithin (omega arith) member,
      )
      round

-- A slice of which only the first 40 blocks came through.
abbrev lossy : Sender
lossy = record (at (transfer (record sent_slice { bytes = 133120; last_good_block = 40 } ∷ [])) 0) {
  config = record config { flags = 0 };
}

abbrev after_loss : Sender
after_loss = elim (send_reqack lossy) [ none ↦ lossy | some w ↦ w ]

loss : send_reqack lossy ≡ some after_loss
unfolding send_reqack
loss = refl

loss_size : after_loss.config.slice_size ≡ 65
unfolding send_reqack adapt shrink new_slice
loss_size = refl

config-IsSized : IsSized lossy.config
config-IsSized = record { least = omega arith; most = omega arith; small = omega arith }

send_reqack-IsSized_example : IsSized after_loss.config × (after_loss.config.max_slice ≡ 1024)
send_reqack-IsSized_example = send_reqack-IsSized lossy after_loss config-IsSized (omega arith) loss
