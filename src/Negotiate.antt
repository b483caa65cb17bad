-- ===== src/Negotiate.antt =====
-- The sender's negotiation before a transfer, src/negotiate.rs: what a datagram of a receiver does,
-- one round of `dispatch_round`, and what `do_transfer` takes over from the participants. What
-- `select` and the sockets return, the keys and the clock, in nanoseconds, are the environment's;
-- the opening of sockets and the messages to the user are left out.
pub mod Register
pub mod Rounds
pub mod Merge
pub mod Start
mod Tests
use udpcast_rs.Base.{
  ℕ, zero, suc, ◌+◌, ◌-◌, ◌*◌, ◌^◌, Bool, true, false, not, ◌&&◌, ◌||◌, ◌==◌, ltb, leb,
  if◌then◌else◌, Option, none, some, ◌>>=◌, List, [], ◌∷◌, ◌++◌, Bytes, length, get_or, bit_and,
  bit_or, i32_add, i32_lt, u16_at, be32,
}
use udpcast_rs.Protocol.{cap_big_endian, cmd_connect_req, cmd_go, cmd_disconnect, ConnectReply}
use udpcast_rs.Protocol.Pack.{unpack_connect_req, ip4_into_16}
use udpcast_rs.Participants.{
  SocketAddrV4, ParticipantsDb, add_participant, lookup_participant, remove_participant,
  is_participant_valid, get_participant_capabilities, max_clients, blank,
}
use udpcast_rs.SendData.{flag_async, has}

-- `CONNECT_REQ_SIZE`
abbrev pub connect_req_size : ℕ
connect_req_size = 12

abbrev pub flag_pointopoint : ℕ
flag_pointopoint = 0x0008

abbrev pub flag_nopointopoint : ℕ
flag_nopointopoint = 0x0040

-- The fields of `NetConfig` that the negotiation uses; the signed ones are i32 patterns.
pub record StartConfig : Type 0 where
  pub flags : ℕ
  pub block_size : ℕ
  pub capabilities : ℕ
  pub rcvbuf : ℕ
  pub data_mcast_addr : SocketAddrV4
  pub min_receivers : ℕ
  pub min_receivers_wait : ℕ
  pub max_receivers_wait : ℕ
  pub start_timeout : ℕ
  pub autostart : ℕ
  pub rexmit_hello_interval : ℕ

abbrev pub positive : ℕ → Bool
positive x = i32_lt 0 x

-- What is sent: a HELLO to the group, or a CONNECT_REPLY to a receiver.
pub data Sent : Type 0 where
  hello : Sent
  reply : SocketAddrV4 → ConnectReply → Sent

-- `cl_nr` of a reply: -1 where the table refused the receiver.
abbrev pub cl_nr_of : Option ℕ → ℕ
cl_nr_of none = 2 ^ 32 - 1
cl_nr_of (some i) = i

-- `none` is the `fatal` on a receiver of the other endianness.
unfoldable pub send_connection_reply :
    ParticipantsDb → StartConfig → SocketAddrV4 → ℕ → ℕ → Option (ParticipantsDb × List Sent)
send_connection_reply db config client capabilities rcvbuf =
    let added =
      add_participant db client capabilities (if rcvbuf == 0 then 65536 else rcvbuf)
        (has config.flags flag_pointopoint) in
    if bit_and capabilities cap_big_endian == 0
    then none
    else some (
      added.1,
      reply client record {
        cl_nr = cl_nr_of added.0;
        block_size = config.block_size;
        capabilities = config.capabilities;
        mcast = ip4_into_16 (be32 config.data_mcast_addr.ip);
      }
          ∷ [],
    )

-- What a datagram leaves: whether the transfer starts, the table and what is sent.
pub record Handled : Type 0 where
  pub starts : Bool
  pub db : ParticipantsDb
  pub sent : List Sent

abbrev pub unchanged : Bool → ParticipantsDb → Option Handled
unchanged starts db = some (record { starts = starts; db = db; sent = [] })

unfoldable pub handle_connect_req :
    Bytes → SocketAddrV4 → ParticipantsDb → StartConfig → Option Handled
handle_connect_req buf from db config = do
  req ← unpack_connect_req buf
  r ← send_connection_reply db config from (bit_or cap_big_endian req.capabilities) req.rcvbuf
  some (record { starts = false; db = r.0; sent = r.1 })

unfoldable pub leave : SocketAddrV4 → ParticipantsDb → ParticipantsDb
leave from db = elim (lookup_participant db from) [ none ↦ db | some i ↦ remove_participant db i ]

unfoldable pub handle_opcode :
    ℕ → Bytes → SocketAddrV4 → ParticipantsDb → StartConfig → Option Handled
handle_opcode opcode buf from db config =
    if opcode == cmd_connect_req
    then (if ltb (length buf) connect_req_size
        then unchanged false db
        else handle_connect_req buf from db config)
    else if opcode == cmd_go
    then unchanged true db
    else if opcode == cmd_disconnect
    then unchanged false (leave from db)
    else unchanged false db

-- `none` is the end of the process.
unfoldable pub handle_receiver_msg :
    Bytes → SocketAddrV4 → ParticipantsDb → StartConfig → Option Handled
handle_receiver_msg buf from db config =
    if ltb (length buf) 4
    then unchanged false db
    else (u16_at buf 0 >>= (λ opcode. handle_opcode opcode buf from db config))

pub wait_for_receivers : StartConfig → Bool
wait_for_receivers config =
    positive config.min_receivers
    || positive config.min_receivers_wait
    || positive config.max_receivers_wait

-- `elapsed >= Duration::from_secs(n)`
abbrev pub has_passed : ℕ → ℕ → Bool
has_passed elapsed seconds = leb (seconds * 10 ^ 9) elapsed

unfoldable pub check_client_wait : ParticipantsDb → StartConfig → Option ℕ → ℕ → Bool
check_client_wait db config none now = false
check_client_wait db config (some first) now =
    if db.nr_participants == 0
    then false
    else if positive config.max_receivers_wait && has_passed (now - first) config.max_receivers_wait
    then true
    else if leb (if positive config.min_receivers then config.min_receivers else 0)
        db.nr_participants
    then not (positive config.min_receivers_wait)
      || has_passed (now - first) config.min_receivers_wait
    else false

-- `hello_interval` in milliseconds; `none` asks for no HELLO.
unfoldable pub hello_interval : StartConfig → Option ℕ
hello_interval config =
    if positive config.rexmit_hello_interval
    then some config.rexmit_hello_interval
    else if i32_lt config.rexmit_hello_interval 0
    then none
    else some 1000

-- What a round sees: an error of `select`, nothing within the tick, or the key that was typed and
-- the datagrams that the sockets gave, at most 64 each.
pub record Datagram : Type 0 where
  pub buf : Bytes
  pub from : SocketAddrV4

pub data Seen : Type 0 where
  failed nothing : Seen
  something : (key : Option ℕ) → List Datagram → Seen

-- The clock at the start of the round, at the check for receivers, and at the start timeout.
pub record Clock : Type 0 where
  pub entered : ℕ
  pub checked : ℕ
  pub timed : ℕ

pub record Negotiation : Type 0 where
  pub db : ParticipantsDb
  pub hello_tries : ℕ
  pub first_connected : Option ℕ

pub data Decision : Type 0 where
  dispatch_wait dispatch_start dispatch_give_up : Decision

-- `exited` is the key `q`, a `fatal` or a panic.
pub data Dispatched : Type 0 where
  exited : Dispatched
  decided : Decision → Negotiation → List Sent → Dispatched

-- The datagrams of a round, in the order in which they come.
unfoldable pub drain : StartConfig → List Datagram → ParticipantsDb → List Sent → Option Handled
drain config [] db sent = some (record { starts = false; db = db; sent = sent })
drain config (d ∷ ds) db sent = do
  h ← handle_receiver_msg d.buf d.from db config
  let rest = drain config ds h.db (sent ++ h.sent)
  if h.starts then some (record { starts = true; db = h.db; sent = sent ++ h.sent }) else rest

abbrev pub key_q : ℕ
key_q = 113

unfoldable pub after_drain : StartConfig → Clock → List Datagram → Negotiation → Dispatched
after_drain config clock datagrams s = elim (drain config datagrams s.db []) [
  | none ↦ exited
  | some h ↦
      let s' = record s { db = h.db } in
      if h.starts || check_client_wait h.db config s.first_connected clock.checked
      then decided dispatch_start s' h.sent
      else decided dispatch_wait s' h.sent
]

unfoldable pub quiet_round : StartConfig → Option ℕ → ℕ → Clock → Negotiation → Dispatched
quiet_round config none started clock s =
    if check_client_wait s.db config s.first_connected clock.checked
    then decided dispatch_start s []
    else if positive config.start_timeout && has_passed (clock.timed - started) config.start_timeout
    then decided dispatch_give_up s []
    else decided dispatch_wait s []
quiet_round config (some interval) started clock s =
    let s' = record s { hello_tries = i32_add s.hello_tries 1 } in
    if not (config.autostart == 0) && i32_lt config.autostart s'.hello_tries
    then decided dispatch_start s' (hello ∷ [])
    else if check_client_wait s.db config s.first_connected clock.checked
    then decided dispatch_start s' (hello ∷ [])
    else if positive config.start_timeout && has_passed (clock.timed - started) config.start_timeout
    then decided dispatch_give_up s' (hello ∷ [])
    else decided dispatch_wait s' (hello ∷ [])

-- When the first receiver was seen.
abbrev pub note_connected : ℕ → ParticipantsDb → Option ℕ → Option ℕ
note_connected now db (some first) = some first
note_connected now db none = if ltb 0 db.nr_participants then some now else none

unfoldable pub busy_round :
    StartConfig → Clock → Option ℕ → List Datagram → Negotiation → Dispatched
busy_round config clock none datagrams s = after_drain config clock datagrams s
busy_round config clock (some key) datagrams s =
    if key == key_q then exited else decided dispatch_start s []

unfoldable pub dispatch_round : StartConfig → Option ℕ → ℕ → Clock → Seen → Negotiation → Dispatched
dispatch_round config interval started clock failed s =
    decided dispatch_wait
      (record s { first_connected = note_connected clock.entered s.db s.first_connected }) []
dispatch_round config interval started clock nothing s =
    quiet_round config interval started clock
      (record s { first_connected = note_connected clock.entered s.db s.first_connected })
dispatch_round config interval started clock (something key datagrams) s =
    busy_round config clock key datagrams
      (record s { first_connected = note_connected clock.entered s.db s.first_connected })

unfoldable pub is_point_to_point : ParticipantsDb → ℕ → Bool
is_point_to_point db flags =
    if has flags flag_pointopoint
    then true
    else if has flags (bit_or flag_nopointopoint flag_async)
    then false
    else db.nr_participants == 1

-- What `do_transfer` takes over from one participant.
unfoldable pub merge_participant : Bool → ParticipantsDb → ℕ → StartConfig → StartConfig
merge_participant is_p2p db i config =
    let client = get_or db.client_table i blank in
    let rcvbuf = client.rcvbuf in
    record config {
      data_mcast_addr =
          if is_p2p
          then record { ip = client.addr.ip; port = config.data_mcast_addr.port }
          else config.data_mcast_addr;
      capabilities = bit_and config.capabilities (get_participant_capabilities db i);
      rcvbuf =
          if not (rcvbuf == 0) && (config.rcvbuf == 0 || ltb rcvbuf config.rcvbuf)
          then rcvbuf
          else config.rcvbuf;
    }

-- The loop over the table, from index `i` on.
unfoldable pub merge_all : Bool → ParticipantsDb → (rounds i : ℕ) → StartConfig → StartConfig
merge_all is_p2p db zero i config = config
merge_all is_p2p db (suc n) i config =
    merge_all is_p2p db n (suc i)
      (if is_participant_valid db i then merge_participant is_p2p db i config else config)

-- The first half of `do_transfer`; `none` is a `fatal`.
unfoldable pub take_over : ParticipantsDb → StartConfig → Option StartConfig
take_over db config =
    let merged =
      merge_all (is_point_to_point db config.flags) db max_clients 0
        (record config { rcvbuf = 0 }) in
    if has config.flags flag_pointopoint && not (db.nr_participants == 1)
    then none
    else if bit_and merged.capabilities cap_big_endian == 0
    then none
    else some merged

-- The end of `do_transfer`, from index `i` on.
unfoldable pub forget_all : (rounds i : ℕ) → ParticipantsDb → ParticipantsDb
forget_all zero i db = db
forget_all (suc n) i db =
    forget_all n (suc i) (if is_participant_valid db i then remove_participant db i else db)
