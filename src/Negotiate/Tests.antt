-- ===== src/Negotiate/Tests.antt =====
-- The negotiation with two receivers, and the theorems' examples.
use udpcast_rs.Base.{
  List, ℕ, ◌<◌, ◌≡◌, refl, arith, true, false, none, some, [], ◌∷◌, Bytes, be32, u16_at, range,
}
use udpcast_rs.Protocol.{cmd_connect_req}
use udpcast_rs.Protocol.Pack.{ip4_into_16}
use udpcast_rs.Participants
use udpcast_rs.Participants.{
  blank, SocketAddrV4, ParticipantsDb, add_participant, is_participant_valid, lookup_participant,
  lookup_from, free_from, get_participant_capabilities, max_clients,
}
use udpcast_rs.Participants.Invariant.{IsValid, add_participant-IsValid, new-IsValid}
use udpcast_rs.Negotiate.{
  StartConfig, reply, cl_nr_of, Handled, handle_receiver_msg, Clock, something, take_over,
  merge_all, merge_participant, is_point_to_point, forget_all,
}
use udpcast_rs.Negotiate.Register.{
  handle_receiver_msg-Answers, handle_receiver_msg-IsValid, connect_req-reply,
}
use udpcast_rs.SendData.{sender_capabilities}
use udpcast_rs.Negotiate.Start.{Turn, StartsReady, start_sender, start_sender-StartsReady}
use udpcast_rs.Negotiate.{something, nothing}
use udpcast_rs.Negotiate.Merge.{
  IsWithin, is_big_endian, take_over-IsWithin, forget_all-participants,
}

abbrev config : StartConfig
config = record {
  flags = 0;
  block_size = 1456;
  capabilities = 9;
  rcvbuf = 0;
  data_mcast_addr = record { ip = 0xef000001; port = 9000 };
  min_receivers = 0;
  min_receivers_wait = 0;
  max_receivers_wait = 0;
  start_timeout = 0;
  autostart = 0;
  rexmit_hello_interval = 0;
}

abbrev first : SocketAddrV4
first = record { ip = 0x0a000001; port = 9001 }

abbrev second : SocketAddrV4
second = record { ip = 0x0a000002; port = 9001 }

abbrev one : ParticipantsDb
one = (add_participant Participants.new first 9 65536 false).1

one-IsValid : IsValid one
one-IsValid = add_participant-IsValid Participants.new first 9 65536 false new-IsValid

-- A CONNECT_REQ with a buffer of 0x30000 bytes.
abbrev request : Bytes
request = 0 ∷ 3 ∷ 0 ∷ 0 ∷ 0 ∷ 0 ∷ 0 ∷ 1 ∷ 0 ∷ 3 ∷ 0 ∷ 0 ∷ []

answered : Handled
answered = (handle_receiver_msg-Answers second one config request).0

answered_eq : handle_receiver_msg request second one config ≡ some answered
unfolding answered
answered_eq = (handle_receiver_msg-Answers second one config request).1

is_request : u16_at request 0 ≡ some cmd_connect_req
unfolding u16_at range
is_request = refl

handle_receiver_msg-IsValid_example :
    (h : Handled) × (handle_receiver_msg (9 ∷ 9 ∷ 9 ∷ 9 ∷ 9 ∷ []) second one config ≡ some h)
    × IsValid h.db
handle_receiver_msg-IsValid_example =
    handle_receiver_msg-IsValid second one config (9 ∷ 9 ∷ 9 ∷ 9 ∷ 9 ∷ []) one-IsValid

connect_req-reply_example :
    (answered.starts ≡ false)
    × (answered.sent
        ≡ reply second record {
          cl_nr = cl_nr_of (lookup_participant answered.db second);
          block_size = 1456;
          capabilities = 9;
          mcast = ip4_into_16 (be32 0xef000001);
        }
          ∷ [])
connect_req-reply_example =
    connect_req-reply second one config request answered one-IsValid (omega arith) is_request
      answered_eq

abbrev clock : Clock
clock = record { entered = 2000; checked = 3000; timed = 4000 }

-- A receiver registers, and a key starts the transfer.
abbrev turns : List Turn
turns =
    record { clock = clock; seen = something none (record { buf = request; from = second } ∷ []) }
    ∷ record { clock = clock; seen = nothing }
    ∷ record { clock = clock; seen = something (some 32) [] }
    ∷ []

start_sender-StartsReady_example :
    StartsReady
      (record config { capabilities = sender_capabilities 0 })
      (start_sender config 0 turns)
start_sender-StartsReady_example = start_sender-StartsReady config 0 turns

-- A table that holds the first receiver only.
abbrev alone : ParticipantsDb
alone = record {
  nr_participants = 1;
  client_table = record blank { addr = first; used = true; capabilities = 9; rcvbuf = 65536 } ∷ [];
}

abbrev taken : StartConfig
taken = record config {
  capabilities = 9;
  rcvbuf = 65536;
  data_mcast_addr = record { ip = 0x0a000001; port = 9000 };
}

taken_eq : take_over alone config ≡ some taken
unfolding take_over merge_all merge_participant is_participant_valid get_participant_capabilities
    is_point_to_point
taken_eq = refl

first_there : is_participant_valid alone 0 ≡ true
unfolding is_participant_valid
first_there = refl

take_over-IsWithin_example :
    IsWithin alone 0 taken × (is_big_endian (get_participant_capabilities alone 0) ≡ 1)
take_over-IsWithin_example =
    take_over-IsWithin alone config taken 0 taken_eq (omega arith) first_there

forget_all-participants_example :
    ((forget_all max_clients 0 one).nr_participants ≡ 0)
    × ((j : ℕ) → j < 1024 → is_participant_valid (forget_all max_clients 0 one) j ≡ false)
forget_all-participants_example = forget_all-participants one one-IsValid
