-- ===== src/Connect/Tests.antt =====
-- A receiver that sees a slice go by, hears a HELLO, and is connected; and the theorem at it.
use udpcast_rs.Base.{
  ℕ, ◌≤◌, length-append, ◌++◌, arith, List, [], ◌∷◌, Bytes, none, false, replicate, length,
}
use udpcast_rs.Participants.{unspecified}
use udpcast_rs.Protocol.{cmd_hello, cap_new_gen}
use udpcast_rs.Protocol.Pack.{pack_connect_reply, pack_hello, pack_reqack}
use udpcast_rs.Connect.{Setup, Joining, arrived, Round, join}
use udpcast_rs.Connect.Noting.{NoTwice}
use udpcast_rs.Connect.Safety.{IsSafe, IsRoomy, AllRoomy, join-IsSafe}

abbrev setup : Setup
setup = record {
  port_base = 9000;
  start_timeout = 0;
  control_mcast_addr = record { ip = 255; port = 9001 };
  rcvbuf = 0;
}

abbrev begin : Joining
begin = record {
  flags = 0;
  block_size = 0;
  data_mcast_addr = unspecified;
  server_addr = unspecified;
  client_number = 0;
  sender_is_newgen = false;
  last_connect_req = none;
  have_server_address = false;
  last_activity = 0;
  late_slices = [];
  sniff_group = none;
  sent = [];
}

abbrev round_with : ℕ → Bytes → Round
round_with now message = record {
  top = now;
  asked = now;
  wait = arrived (record {
    now = now;
    msglen = length message;
    buf = message ++ replicate 32 0;
    from = record { ip = 1; port = 9001 };
    joined = none;
  });
}

has_room : (message : Bytes) → 32 ≤ length (message ++ replicate 32 0)
has_room message = omega (arith, length-append message (replicate 32 0))

abbrev mcast : Bytes
mcast = 232 ∷ 1 ∷ 2 ∷ 3 ∷ replicate 12 0

abbrev rounds : List Round
rounds =
    round_with 1 (pack_reqack (record { slice_no = 4; bytes = 100; rxmit = 1 }))
    ∷ round_with 2 (
        pack_hello (record { capabilities = cap_new_gen; mcast = mcast; block_size = 1456 })
          cmd_hello)
    ∷ round_with 3 (
        pack_connect_reply
          (record { cl_nr = 0; block_size = 1456; capabilities = cap_new_gen; mcast = mcast }))
    ∷ []

join-IsSafe_example : IsSafe setup (join setup begin rounds)
unfolding AllRoomy IsRoomy NoTwice
join-IsSafe_example = join-IsSafe setup begin rounds (has_room _, (has_room _, (has_room _, tt))) tt
