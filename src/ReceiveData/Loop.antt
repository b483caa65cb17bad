-- ===== src/ReceiveData/Loop.antt =====
-- The main loop of `spawn_net_receiver` of src/receivedata.rs: the datagrams of the sender by their
-- opcodes, the end of the transfer and the receiver's two timeouts. Instants are numbers of
-- nanoseconds.
use udpcast_rs.Base.{
  ℕ, zero, suc, ◌+◌, ◌-◌, ◌*◌, ◌^◌, Bool, true, false, not, ◌&&◌, ◌||◌, ◌==◌, Option, none, some,
  List, [], ◌∷◌, ◌++◌, Bytes, set, take, drop, replicate, ltb, leb, if◌then◌else◌, ◌>>=◌, u16_at,
  map,
}
use udpcast_rs.Fifo.{Fifo}
use udpcast_rs.Participants.{SocketAddrV4, addr_eq}
use udpcast_rs.Produconsum
use udpcast_rs.Produconsum.{Produconsum, Wakeup, done, fatal}
use udpcast_rs.Protocol.{cmd_data, cmd_fec, cmd_reqack, cmd_connect_reply, is_hello}
use udpcast_rs.Protocol.Pack.{unpack_data_block, unpack_fec_block, unpack_reqack, pack_disconnect}
use udpcast_rs.ReceiveData.{Slice, Client, is_finished}
use udpcast_rs.ReceiveData.Table.{
  Table, empty_slice, slot, find_slice, no_slot, waiting, opened, new_slice, as_usize, Step, panic,
  blocked, next,
}
use udpcast_rs.ReceiveData.Blocks.{process_data_block, process_fec_block}
use udpcast_rs.ReceiveData.Requests.{process_reqack}

-- The table before the first datagram: `NR_SLICES` free slots.
abbrev pub initial_table : Fifo → Client → Table
initial_table fifo client = record {
  slices = replicate 8 empty_slice;
  current_slice = none;
  fifo = fifo;
  client = client;
}

-- A slice that was seen before this receiver was connected gets its size.
unfoldable pub seed : Table → ℕ → (bytes : ℕ) → Table
seed t i bytes = record t {
  slices = set t.slices i (record (slot t.slices i) { bytes = as_usize bytes; bytes_known = true });
}

-- `late_slices`: the number and the size of each, with the wakeups of its wait for memory.
unfoldable pub late_join : ℕ → List (ℕ × ℕ × List Wakeup) → Table → Step
late_join block_size [] t = next t
late_join block_size ((slice_no, bytes, wakeups) ∷ rest) t =
    elim (find_slice t.slices none slice_no) [
      | some i ↦ late_join block_size rest (seed t i bytes)
      | none ↦ elim (new_slice t slice_no block_size wakeups) [
        | no_slot ↦ late_join block_size rest t
        | waiting ↦ blocked
        | opened i t' ↦ late_join block_size rest (seed t' i bytes)
      ]
    ]

-- What a datagram comes to; `skipped` is a `continue` of the loop.
pub data Handled : Type 0 where
  skipped : Handled
  handled : Step → Handled

abbrev pub started : Table → Table
started t = record t { client = record t.client { is_started = true } }

-- A message of at least 16 bytes is unpacked and handed to its handler.
unfoldable pub with_message {ℓ} : {M : Type ℓ} → (n : ℕ) → Option M → (M → Step) → Handled
with_message n unpacked process =
    if ltb n 16 then skipped else handled (elim unpacked [ none ↦ panic | some msg ↦ process msg ])

-- The first `n` bytes of the buffer came in.
unfoldable pub dispatch : ℕ → Table → List Wakeup → (n : ℕ) → Bytes → (opcode : ℕ) → Handled
dispatch block_size t wakeups n buf opcode =
    let body = take (n - 16) (drop 16 buf) in
    if opcode == cmd_data
    then with_message n (unpack_data_block buf)
        (λ msg. process_data_block block_size (started t) wakeups msg body)
    else if opcode == cmd_fec
    then with_message n (unpack_fec_block buf)
        (λ msg. process_fec_block block_size (started t) wakeups msg body)
    else if opcode == cmd_reqack
    then with_message n (unpack_reqack buf)
        (λ msg. process_reqack block_size (started t) wakeups msg)
    else if is_hello opcode || opcode == cmd_connect_reply
    then skipped
    else handled (next t)

unfoldable pub handle_packet : ℕ → Table → List Wakeup → (n : ℕ) → Bytes → Handled
handle_packet block_size t wakeups n buf = if ltb n 4 then skipped else elim (u16_at buf 0) [
  | none ↦ handled panic
  | some opcode ↦ dispatch block_size t wakeups n buf opcode
]

-- A slice that is done and has no bytes is the end marker.
unfoldable pub has_end : List Slice → Bool
has_end [] = false
has_end (s ∷ ss) = is_finished s.state && s.bytes == 0 || has_end ss

-- The destinations of a disconnection, `0` being the unspecified address.
unfoldable pub disconnect_dests : (server control : SocketAddrV4) → List SocketAddrV4
disconnect_dests server control =
    (if server.ip == 0 then [] else server ∷ [])
    ++ (if control.ip == 0 || addr_eq control server then [] else control ∷ [])

-- `send_disconnect`: where the datagrams go, in order.
unfoldable pub send_disconnect :
    (server control : SocketAddrV4) → (rounds : ℕ) → List (SocketAddrV4 × Bytes)
send_disconnect server control zero = []
send_disconnect server control (suc n) =
    map (λ to. (to, pack_disconnect)) (disconnect_dests server control)
    ++ send_disconnect server control n

-- One notification is enough for a clean end.
abbrev pub disconnect_rounds : (exit_status : ℕ) → ℕ
disconnect_rounds exit_status = if exit_status == 0 then 1 else 5

pub record Config : Type 0 where
  pub block_size : ℕ
  pub exit_wait_ms : ℕ
  pub receive_timeout_secs : ℕ
  pub server_addr : SocketAddrV4
  pub control_addr : SocketAddrV4

pub record Session : Type 0 where
  pub table : Table
  pub end_reached : Bool
  pub drain_deadline : Option ℕ
  pub last_activity : ℕ

-- What `RxPoller::next` gives, with the clock behind it.
pub data Poll : Type 0 where
  quiet : (now : ℕ) → Poll
  packet : (now n : ℕ) → Bytes → Poll

-- What one pass of the loop sees: what the writer thread took from the ring and gave back as free
-- memory since the pass before, call by call, the clock at its start, the poll, the wakeups of a wait
-- for memory, and the clock at its end.
pub record Pass : Type 0 where
  pub taken : List ℕ
  pub freed : List ℕ
  pub top : ℕ
  pub poll : Poll
  pub wakeups : List Wakeup
  pub bottom : ℕ

-- How a pass ends: the loop goes on, is left, ends the process on the receive timeout with these
-- datagrams, panics, or waits for memory.
pub data Fate : Type 0 where
  goes_on : Session → Fate
  leaves : (now : ℕ) → Session → Fate
  times_out : List (SocketAddrV4 × Bytes) → Fate
  crashes hangs : Fate

abbrev pub exit_wait : Config → ℕ
exit_wait c = c.exit_wait_ms * 10 ^ 6

abbrev pub is_due : ℕ → Option ℕ → Bool
is_due now none = false
is_due now (some deadline) = leb deadline now

-- A packet arrived: the timers are armed again.
unfoldable pub rearm : Config → ℕ → Session → Session
rearm c now s = record s {
  last_activity = now;
  drain_deadline = if s.end_reached then some (now + exit_wait c) else s.drain_deadline;
}

-- The test for the end marker, after a packet.
unfoldable pub check_end : Config → ℕ → Session → Session
check_end c now s =
    if not s.end_reached && has_end s.table.slices
    then record s { end_reached = true; drain_deadline = some (now + exit_wait c) }
    else s

unfoldable pub after_packet : Config → ℕ → Session → Handled → Fate
after_packet c now s skipped = goes_on s
after_packet c now s (handled panic) = crashes
after_packet c now s (handled blocked) = hangs
after_packet c now s (handled (next t)) = goes_on (check_end c now (record s { table = t }))

-- No packet came.
unfoldable pub idle : Config → ℕ → Session → Fate
idle c now s =
    if ltb 0 c.receive_timeout_secs
      && s.table.client.is_started
      && leb (c.receive_timeout_secs * 10 ^ 9) (now - s.last_activity)
    then times_out (send_disconnect c.server_addr c.control_addr (disconnect_rounds 1))
    else goes_on s

unfoldable pub receive : Config → Session → Pass → Poll → Fate
receive c s p (quiet now) = idle c now s
receive c s p (packet now n buf) =
    after_packet c p.bottom (rearm c now s) (handle_packet c.block_size s.table p.wakeups n buf)

-- The calls of `consumed` and of `produce` by the writer thread; `none` is the `fatal` of `produce`.
unfoldable pub take_out : List ℕ → Produconsum → Produconsum
take_out [] q = q
take_out (n ∷ ns) q = take_out ns (Produconsum.consume_amount q n)

unfoldable pub give_back : List ℕ → Produconsum → Option Produconsum
give_back [] q = some q
give_back (n ∷ ns) q = elim (Produconsum.produce q n) [
  | fatal ↦ none
  | done q' notified ↦ give_back ns q'
]

-- The session as the writer thread left it.
unfoldable pub after_writer : Session → Pass → Option Session
after_writer s p = do
  free ← give_back p.freed s.table.fifo.free_mem_queue
  let fifo = record s.table.fifo {
    filled = take_out p.taken s.table.fifo.filled;
    free_mem_queue = free;
  }
  some (record s { table = record s.table { fifo = fifo } })

-- The body of the loop.
unfoldable pub turn : Config → Session → Pass → Fate
turn c s p = if is_due p.top s.drain_deadline then leaves p.top s else receive c s p p.poll

unfoldable pub resumed : Config → Pass → Option Session → Fate
resumed c p none = crashes
resumed c p (some s) = turn c s p

unfoldable pub pass : Config → Session → Pass → Fate
pass c s p = resumed c p (after_writer s p)

-- What follows a pass that does not end the loop.
unfoldable pub followed_by : Fate → (Session → Fate) → Fate
followed_by (goes_on s) more = more s
followed_by (leaves now s) more = leaves now s
followed_by (times_out sent) more = times_out sent
followed_by crashes more = crashes
followed_by hangs more = hangs

-- The loop, as long as the passes last.
unfoldable pub run : Config → Session → List Pass → Fate
run c s [] = goes_on s
run c s (p ∷ ps) = followed_by (pass c s p) (λ s'. run c s' ps)
