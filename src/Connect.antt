-- ===== src/Connect.antt =====
-- How a receiver finds its sender, src/receiver.rs: the loop of `start_receiver` before a transfer.
-- It asks to be connected once a second, takes what HELLO and CONNECT_REPLY messages say, and keeps
-- a list of the slices that it sees go by. Instants are numbers of nanoseconds.
pub mod Unpacking
pub mod Noting
pub mod Safety
mod Tests
use udpcast_rs.Base.{
  ℕ, ◌+◌, ◌-◌, ◌*◌, ◌/◌, ◌%◌, ◌^◌, Bool, true, false, not, ◌&&◌, ◌||◌, ◌==◌, Option, none, some,
  List, [], ◌∷◌, Bytes, ltb, leb, if◌then◌else◌, ◌>>=◌, bit_or, bit_and, u16_at, u32_at, i32_lt,
}
use udpcast_rs.Negotiate.{flag_pointopoint}
use udpcast_rs.Participants.{SocketAddrV4, unspecified}
use udpcast_rs.Protocol.{
  cmd_connect_reply, cmd_connect_req, cmd_hello_streaming, cmd_reqack, cmd_data, cmd_fec, is_hello,
  cap_new_gen, cap_async, receiver_capabilities, ConnectReply, Hello,
}
use udpcast_rs.Protocol.Pack.{
  pack_connect_req, unpack_connect_reply, unpack_hello, unpack_reqack, unpack_data_block,
  unpack_fec_block,
}
use udpcast_rs.SendData.{has}
use udpcast_rs.ReceiveData.Loop.{send_disconnect, disconnect_rounds}

abbrev pub flag_passive : ℕ
flag_passive = 0x0010

abbrev pub flag_streaming : ℕ
flag_streaming = 0x0100

-- The sender's port is the one above the receiver's.
abbrev pub sender_port : ℕ → ℕ
sender_port port_base = (port_base + 1) % 2 ^ 16

-- A slice that was seen while another transfer ran.
pub record Late : Type 0 where
  pub slice_no : ℕ
  pub bytes : ℕ
  pub rxmit : ℕ

pub record Setup : Type 0 where
  pub port_base : ℕ
  pub start_timeout : ℕ  -- seconds
  pub control_mcast_addr : SocketAddrV4
  pub rcvbuf : ℕ

-- The fields of the two configurations and the variables that the loop changes.
pub record Joining : Type 0 where
  pub flags : ℕ
  pub block_size : ℕ
  pub data_mcast_addr : SocketAddrV4
  pub server_addr : SocketAddrV4
  pub client_number : ℕ
  pub sender_is_newgen : Bool
  pub last_connect_req : Option ℕ
  pub have_server_address : Bool
  pub last_activity : ℕ
  pub late_slices : List Late
  pub sniff_group : Option ℕ
  pub sent : List (SocketAddrV4 × Bytes)

-- A datagram that the sockets gave, and the group that the sniffer is in if it is opened again.
pub record Arrival : Type 0 where
  pub now : ℕ
  pub msglen : ℕ
  pub buf : Bytes
  pub from : SocketAddrV4
  pub joined : Option ℕ

-- `quiet` is a wait without a datagram, with the clock behind it.
pub data Wait : Type 0 where
  quiet : (now : ℕ) → Wait
  arrived : Arrival → Wait

-- One round: the clock at its start and after a request went out, and the wait.
pub record Round : Type 0 where
  pub top : ℕ
  pub asked : ℕ
  pub wait : Wait

-- How a round ends.
pub data Result : Type 0 where
  goes_on : Joining → Result
  connected : Joining → Result
  no_sender : List (SocketAddrV4 × Bytes) → Result
  too_many_clients bad_reply crashes : Result

-- A second since the last request, or none yet.
unfoldable pub need_connect_req : ℕ → Option ℕ → Bool
need_connect_req now none = true
need_connect_req now (some t) = leb (10 ^ 9) (now - t)

-- The request goes to the sender if it just said hello, or to all.
unfoldable pub ask : Setup → Round → Joining → Joining
ask c r s =
    if need_connect_req r.top s.last_connect_req && not (has s.flags flag_passive)
    then record s {
      last_connect_req = some r.asked;
      sent =
          (
            if s.have_server_address then s.server_addr else c.control_mcast_addr,
            pack_connect_req (record { capabilities = receiver_capabilities; rcvbuf = c.rcvbuf }),
          )
          ∷ s.sent;
    }
    else s

-- A slice that goes by is noted, once for each number; its round never goes back.
unfoldable pub note : Late → List Late → List Late
note l [] = l ∷ []
note l (e ∷ es) =
    if e.slice_no == l.slice_no
    then record e { bytes = l.bytes; rxmit = if i32_lt e.rxmit l.rxmit then l.rxmit else e.rxmit }
      ∷ es
    else e ∷ note l es

-- What a message of the data channel tells; `none` is the panic of a read out of range.
unfoldable pub seen_slice : ℕ → Bytes → Option Late
seen_slice opcode buf =
    if opcode == cmd_reqack
    then (do
      m ← unpack_reqack buf
      some (record { slice_no = m.slice_no; bytes = m.bytes; rxmit = m.rxmit }))
    else if opcode == cmd_data
    then (do
      m ← unpack_data_block buf
      some (record { slice_no = m.slice_no; bytes = m.bytes; rxmit = 0 }))
    else (do
      m ← unpack_fec_block buf
      some (record { slice_no = m.slice_no; bytes = m.bytes; rxmit = 0 }))

unfoldable pub see : ℕ → Bytes → Joining → Result
see opcode buf s = elim (seen_slice opcode buf) [
  | none ↦ crashes
  | some l ↦
      goes_on
        (if ltb l.slice_no (2 ^ 31) then record s { late_slices = note l s.late_slices } else s)
]

-- `ip4_from_16`, as an address without a port.
unfoldable pub group_of : Bytes → SocketAddrV4
group_of mcast = elim (u32_at mcast 0) [
  | none ↦ unspecified
  | some ip ↦ record { ip = ip; port = 0 }
]

-- A CONNECT_REPLY ends the loop.
unfoldable pub take_reply : Arrival → Joining → Result
take_reply a s = elim (unpack_connect_reply a.buf) [
  | none ↦ crashes
  | some reply ↦
      let newgen = not (bit_and reply.capabilities cap_new_gen == 0) in
      if reply.cl_nr == 2 ^ 32 - 1
      then too_many_clients
      else connected record s {
        client_number = reply.cl_nr;
        block_size = reply.block_size;
        server_addr = a.from;
        sender_is_newgen = newgen || s.sender_is_newgen;
        data_mcast_addr = if newgen then group_of reply.mcast else s.data_mcast_addr;
      }
]

-- An address in 224.0.0.0/4
abbrev pub is_mcast : ℕ → Bool
is_mcast ip = ip / 2 ^ 28 == 14

abbrev pub is_group : Option ℕ → ℕ → Bool
is_group none ip = false
is_group (some g) ip = g == ip

-- The sniffer follows the data group of the HELLO.
unfoldable pub re_aim : Option ℕ → Joining → Joining
re_aim joined s =
    if not (has s.flags flag_pointopoint)
      && is_mcast s.data_mcast_addr.ip
      && not (is_group s.sniff_group s.data_mcast_addr.ip)
    then record s { sniff_group = joined }
    else s

-- The sender is there: it is asked at once, and its address is used.
unfoldable pub answer_hello : Arrival → Joining → Joining
answer_hello a s = re_aim a.joined (record s { server_addr = a.from; have_server_address = true })

-- What a HELLO of the new generation says.
unfoldable pub take_hello : Hello → Joining → Joining
take_hello h s = record s {
  sender_is_newgen = true;
  data_mcast_addr = group_of h.mcast;
  block_size = h.block_size;
  flags = if bit_and h.capabilities cap_async == 0 then s.flags else bit_or s.flags flag_passive;
}

-- A HELLO asks for participants: a request goes out in the next round.
unfoldable pub invited : (opcode : ℕ) → Joining → Joining
invited opcode s = record s {
  last_connect_req = none;
  flags = if opcode == cmd_hello_streaming then bit_or s.flags flag_streaming else s.flags;
}

-- A passive receiver needs no more than a HELLO of the new generation.
unfoldable pub hear_hello : Arrival → Hello → Joining → Result
hear_hello a h s =
    if bit_and h.capabilities cap_new_gen == 0
    then goes_on (answer_hello a s)
    else if has (take_hello h s).flags flag_passive
    then connected (take_hello h s)
    else goes_on (answer_hello a (take_hello h s))

unfoldable pub hello : (opcode : ℕ) → Arrival → Joining → Result
hello opcode a s =
    if ltb a.msglen 28
    then goes_on (answer_hello a (invited opcode s))
    else elim (unpack_hello a.buf) [ none ↦ crashes | some h ↦ hear_hello a h (invited opcode s) ]

unfoldable pub by_opcode : (opcode : ℕ) → Arrival → Joining → Result
by_opcode opcode a s =
    if opcode == cmd_connect_reply
    then (if ltb a.msglen 32 then goes_on s else take_reply a s)
    else if is_hello opcode
    then hello opcode a s
    else if opcode == cmd_connect_req
    then goes_on s
    else if opcode == cmd_reqack || opcode == cmd_data || opcode == cmd_fec
    then see opcode a.buf s
    else bad_reply

-- A datagram counts if it is from the sender's port and has a header.
unfoldable pub take_arrival : Setup → Arrival → Joining → Result
take_arrival c a s =
    if not (a.from.port == sender_port c.port_base) || ltb a.msglen 4
    then goes_on s
    else elim (u16_at a.buf 0) [ none ↦ crashes | some opcode ↦ by_opcode opcode a s ]

-- No sender within the start timeout: it is told, in case it heard of this receiver.
unfoldable pub give_up : Setup → ℕ → Joining → Result
give_up c now s =
    if ltb 0 c.start_timeout && leb (c.start_timeout * 10 ^ 9) (now - s.last_activity)
    then no_sender (send_disconnect s.server_addr c.control_mcast_addr (disconnect_rounds 1))
    else goes_on s

unfoldable pub after_wait : Setup → Wait → Joining → Result
after_wait c (quiet now) s = give_up c now s
after_wait c (arrived a) s = take_arrival c a (record s { last_activity = a.now })

unfoldable pub round : Setup → Joining → Round → Result
round c s r = after_wait c r.wait (record (ask c r s) { have_server_address = false })

-- What follows a round that does not end the loop.
unfoldable pub or_else : Result → (Joining → Result) → Result
or_else (goes_on s) more = more s
or_else (connected s) more = connected s
or_else (no_sender sent) more = no_sender sent
or_else too_many_clients more = too_many_clients
or_else bad_reply more = bad_reply
or_else crashes more = crashes

-- The loop, as long as the rounds last.
unfoldable pub join : Setup → Joining → List Round → Result
join c s [] = goes_on s
join c s (r ∷ rs) = or_else (round c s r) (λ s'. join c s' rs)

-- Does the receiver join the data group after the loop?
pub joins_group : (data_ip control my_ip : ℕ) → Bool
joins_group data_ip control my_ip =
    not (data_ip == 0) && not (data_ip == my_ip) && (control == 0 || not (data_ip == control))
