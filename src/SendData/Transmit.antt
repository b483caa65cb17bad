-- ===== src/SendData/Transmit.antt =====
-- The parts of `spawn_net_sender` of src/senddata.rs that choose the slice size, fill a new slice,
-- send the missing blocks of the pending slices, and repeat the replies to receivers that never
-- answered. The FEC encoding of a new slice is left out.
use udpcast_rs.Base.{
  ℕ, zero, suc, ◌-◌, ◌*◌, ◌%◌, ◌^◌, ◌++◌, Bool, true, false, not, ◌&&◌, ◌==◌, Option, none, some,
  List, [], ◌∷◌, Bytes, ltb, if◌then◌else◌, ◌>>=◌, set, usize_mul, i32_add,
}
use udpcast_rs.Fifo.{Fifo}
use udpcast_rs.Participants.{
  SocketAddrV4, ParticipantsDb, is_participant_valid, ever_answered, get_participant_capabilities,
  get_participant_ip,
}
use udpcast_rs.Produconsum.{Produconsum, Wakeup, consume, consume_amount, get_consumer_position}
use udpcast_rs.Protocol.{cap_late_join}
use udpcast_rs.Protocol.Pack.{pack_connect_reply, ip4_into_16}
use udpcast_rs.SendData.{
  Slice, fresh, NetConfig, no_bits, has, doubling, flag_fec, flag_async, flag_sn,
}
use udpcast_rs.SendData.Messages.{slice_at}
use udpcast_rs.SendData.Answers.{Transfer}
use udpcast_rs.SendData.Blocks.{rexmit_slice}

-- How much of what waits goes into the slice: no more than a full slice, and whole blocks unless
-- less than a block is there. The product of the two sizes is a u32's.
pub slice_bytes : NetConfig → ℕ → ℕ
slice_bytes c amount =
    let most = c.block_size * c.slice_size % 2 ^ 32 in
    let bytes = if ltb most amount then most else amount in
    if ltb c.block_size bytes then bytes - bytes % c.block_size else bytes

-- The slice that is filled, the queue after it, the next slice's number, and whether it ends.
pub record Filled : Type 0 where
  pub slice : Slice
  pub queue : Produconsum
  pub slice_no : ℕ
  pub at_end : Bool

-- `none`: the reader has not delivered enough yet.
pub fill_slice : NetConfig → ℕ → Produconsum → List Wakeup → Slice → Option Filled
fill_slice c slice_no q wakeups s = do
  r ← consume (usize_mul 10 c.block_size) q wakeups
  let bytes = slice_bytes c r.amount
  some (record {
    slice = record s {
      base = get_consumer_position q;
      slice_no = slice_no;
      bytes = bytes;
      next_block = 0;
      state = fresh;
      ready_set = no_bits;
      answered_set = no_bits;
      nr_ready = 0;
      nr_answered = 0;
      rxmit_map = no_bits;
      is_xmitted_map = no_bits;
      rxmit_id = 0;
      need_rxmit = false;
      last_good_block = 0;
    };
    queue = consume_amount r.queue bytes;
    slice_no = i32_add slice_no 1;
    at_end = bytes == 0;
  })

push_all : List Bytes → List Bytes → List Bytes
push_all [] sent = sent
push_all (p ∷ ps) sent = push_all ps (p ∷ sent)

-- The missing blocks of one slice.
pub resend : Fifo → Transfer → ℕ → Option Transfer
resend f t i = elim (rexmit_slice t.config.block_size f (slice_at t.slices i) t.stats) [
  | none ↦ none
  | some (s, stats, packets) ↦
      some (record t { slices = set t.slices i s; stats = stats; sent = push_all packets t.sent })
]

-- `for &idx in &pending { if slices[idx].need_rxmit { rexmit_slice } }`
pub rexmit_pass : Fifo → List ℕ → Transfer → Option Transfer
rexmit_pass f [] t = some t
rexmit_pass f (i ∷ pending) t = elim (slice_at t.slices i).need_rxmit [
  | false ↦ rexmit_pass f pending t
  | true ↦ resend f t i >>= rexmit_pass f pending
]

-- A participant that can join late and never answered gets the reply again.
pub wants_reply : ParticipantsDb → ℕ → Bool
wants_reply db i =
    (is_participant_valid db i && not (ever_answered db i))
    && has (get_participant_capabilities db i) cap_late_join

pub connect_reply : NetConfig → (capabilities : ℕ) (data_mcast : Bytes) → ℕ → Bytes
connect_reply c capabilities data_mcast i = pack_connect_reply (record {
  cl_nr = i;
  block_size = c.block_size;
  capabilities = capabilities;
  mcast = ip4_into_16 data_mcast;
})

-- The replies for the indices below `n`, with their destinations.
pub connect_replies :
    NetConfig
    → (capabilities : ℕ) (data_mcast : Bytes) → ParticipantsDb
    → ℕ
    → List (SocketAddrV4 × Bytes)
connect_replies c caps mcast db zero = []
connect_replies c caps mcast db (suc i) =
    connect_replies c caps mcast db i
    ++ (if wants_reply db i
        then elim (get_participant_ip db i) [
          | none ↦ []
          | some addr ↦ (addr, connect_reply c caps mcast i) ∷ []
        ]
        else [])

-- The slice size that a transfer starts with: the option, or a default for its mode.
pub first_size : NetConfig → (default_size stripes stripe_size : ℕ) → NetConfig
first_size c default_size stripes stripe_size =
    if default_size == 0
    then record c {
      slice_size =
          if has c.flags flag_fec
          then stripe_size * stripes % 2 ^ 32
          else if has c.flags flag_async
          then 1024
          else if has c.flags flag_sn
          then 112
          else 130;
      discovery = doubling;
    }
    else record c { slice_size = default_size }

-- With FEC, a stripe has at most 128 blocks.
pub limit_stripes : NetConfig → ℕ → NetConfig
limit_stripes c stripes =
    let most = 128 * stripes % 2 ^ 32 in
    if has c.flags flag_fec
    then record c {
      slice_size = if ltb most c.slice_size then most else c.slice_size;
      max_slice = if ltb most c.max_slice then most else c.max_slice;
    }
    else c

pub initial_sizes : NetConfig → (default_size stripes stripe_size : ℕ) → NetConfig
initial_sizes c default_size stripes stripe_size =
    let limited = limit_stripes (first_size c default_size stripes stripe_size) stripes in
    if ltb limited.max_slice limited.slice_size
    then record limited { slice_size = limited.max_slice }
    else limited
