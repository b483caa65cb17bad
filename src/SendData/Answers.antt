-- ===== src/SendData/Answers.antt =====
-- `ack_slice`, `send_reqack`, and the two passes of the main loop over the pending slices.
pub mod Rounds
pub mod Adapt
pub mod Safety
use udpcast_rs.Base.{
  ℕ, ◌+◌, ◌-◌, ◌*◌, ◌/◌, ◌%◌, ◌^◌, Bool, true, false, not, ◌&&◌, ◌==◌, ltb, leb, Option, none, some,
  List, [], ◌∷◌, Bytes, if◌then◌else◌, usize_add, usize_sub, u32, i32_add, set,
}
use udpcast_rs.Protocol.{Reqack}
use udpcast_rs.Protocol.Pack.{pack_reqack}
use udpcast_rs.Produconsum
use udpcast_rs.Produconsum.{Produconsum, Produce, done, fatal}
use udpcast_rs.Statistics
use udpcast_rs.Statistics.{SenderStats}
use udpcast_rs.SendData.{
  SliceState, free, fresh, xmitted, acked, Slice, NetConfig, Discovery, doubling, reducing, flag_sn,
  flag_async, has, no_bits, free_slice, is_free,
}
use udpcast_rs.SendData.Messages.{slice_at}

abbrev pub is_acked : SliceState → Bool
is_acked acked = true
is_acked _ = false

-- What the two functions work on; the datagrams that go out are a list.
pub record Sender : Type 0 where
  pub slice : Slice
  pub config : NetConfig
  pub free_mem : Produconsum
  pub stats : SenderStats
  pub sent : List Bytes

-- Discovery by doubling: an acknowledged slice lets the next be a quarter larger.
unfoldable pub grow : NetConfig → NetConfig
grow c = elim c.discovery [
  | reducing ↦ c
  | doubling ↦
      let size = u32 (c.slice_size + c.slice_size / 4) in
      if leb c.max_slice size
      then record c { slice_size = c.max_slice; discovery = reducing }
      else record c { slice_size = size }
]

-- `none` is the `fatal` of `produce`.
unfoldable pub ack_slice : Sender → Option Sender
ack_slice w =
    if is_acked w.slice.state then some w else elim (Produconsum.produce w.free_mem w.slice.bytes) [
      | fatal ↦ none
      | done q notified ↦ some (record w {
        slice = record w.slice { state = acked };
        config = if has w.config.flags flag_sn then w.config else grow w.config;
        free_mem = q;
        stats = Statistics.add_bytes w.stats w.slice.bytes;
      })
    ]

-- `(bytes + block_size - 1) / block_size`, for a block size that is not 0
abbrev pub nr_blocks : ℕ → ℕ → ℕ
nr_blocks bytes block_size = usize_sub (usize_add bytes block_size) 1 / block_size

-- A round that lost a block makes the next slices smaller, though not below 32 blocks.
unfoldable pub shrink : NetConfig → ℕ → NetConfig
shrink c last_good_block =
    let size =
      if ltb last_good_block (c.slice_size / 2) then c.slice_size / 2 else u32 last_good_block in
    record c { discovery = reducing; slice_size = if ltb size 32 then 32 else size }

-- The configuration after a round has been asked for.
unfoldable pub adapt : NetConfig → Slice → NetConfig
adapt c s =
    if not (has c.flags flag_async) && not (s.rxmit_id == 0)
    then if not (s.last_good_block == 0) && ltb s.last_good_block (nr_blocks s.bytes c.block_size)
      then shrink c s.last_good_block
      else c
    else c

-- The slice at the start of a round: those that are ready count as having answered.
unfoldable pub next_round : Slice → Slice
next_round s = record s {
  last_good_block = 0;
  answered_set = s.ready_set;
  nr_answered = s.nr_ready;
  need_rxmit = false;
  rxmit_map = no_bits;
  is_xmitted_map = no_bits;
}

pub reqack_msg : Slice → Bytes
reqack_msg s =
    pack_reqack (record { slice_no = s.slice_no; bytes = u32 s.bytes; rxmit = s.rxmit_id })

unfoldable pub send_reqack : Sender → Option Sender
send_reqack w =
    if has w.config.flags flag_async && not (w.slice.bytes == 0)
    then ack_slice w
    else some (record w {
      config = adapt w.config w.slice;
      slice = next_round w.slice;
      sent = reqack_msg w.slice ∷ w.sent;
    })

-- The state of the main loop that the passes over the pending slices change.
pub record Transfer : Type 0 where
  pub slices : List Slice
  pub config : NetConfig
  pub free_mem : Produconsum
  pub stats : SenderStats
  pub sent : List Bytes
  pub first_slice_acked : Bool

abbrev pub at : Transfer → ℕ → Sender
at t i = record {
  slice = slice_at t.slices i;
  config = t.config;
  free_mem = t.free_mem;
  stats = t.stats;
  sent = t.sent;
}

-- `slices[idx].state != Acked && slices[idx].nr_ready >= nr_part`
unfoldable pub all_ready : ℕ → Slice → Bool
all_ready nr_part s = not (is_acked s.state) && leb nr_part s.nr_ready

-- The slice is acknowledged and its slot freed.
unfoldable pub ack_and_free : Transfer → ℕ → Option Transfer
ack_and_free t i = elim (ack_slice (at t i)) [
  | none ↦ none
  | some w ↦ some (record t {
    slices = set t.slices i (free_slice w.slice);
    config = w.config;
    free_mem = w.free_mem;
    stats = w.stats;
    first_slice_acked = true;
  })
]

-- `for &idx in &pending { if ... { ack_slice; free_slice } }`
unfoldable pub ack_pass : ℕ → List ℕ → Transfer → Option Transfer
ack_pass nr_part [] t = some t
ack_pass nr_part (i ∷ pending) t = elim (all_ready nr_part (slice_at t.slices i)) [
  | false ↦ ack_pass nr_part pending t
  | true ↦ elim (ack_and_free t i) [ none ↦ none | some t' ↦ ack_pass nr_part pending t' ]
]

-- `pending.retain(|&idx| slices[idx].state != Free)`
pub retain : List Slice → List ℕ → List ℕ
retain slices [] = []
retain slices (i ∷ pending) =
    let rest = retain slices pending in if is_free (slice_at slices i).state then rest else i ∷ rest

-- `slices[idx].state != Acked && slices[idx].nr_answered >= nr_part`
unfoldable pub all_answered : ℕ → Slice → Bool
all_answered nr_part s = not (is_acked s.state) && leb nr_part s.nr_answered

abbrev pub next_rxmit : Slice → Slice
next_rxmit s = record s { rxmit_id = i32_add s.rxmit_id 1 }

-- A new round for one slice; in asynchronous mode it may be acknowledged, and freed.
unfoldable pub start_round : Transfer → ℕ → Option Transfer
start_round t i =
    elim (send_reqack (record (at t i) { slice = next_rxmit (slice_at t.slices i) })) [
      | none ↦ none
      | some w ↦
          let done = is_acked w.slice.state in
          some (record t {
            slices = set t.slices i (if done then free_slice w.slice else w.slice);
            config = w.config;
            free_mem = w.free_mem;
            stats = w.stats;
            sent = w.sent;
            first_slice_acked = if done then true else t.first_slice_acked;
          })
    ]

-- Every pending slice that all have answered gets a new round.
unfoldable pub round_pass : ℕ → List ℕ → Transfer → Option Transfer
round_pass nr_part [] t = some t
round_pass nr_part (i ∷ pending) t = elim (all_answered nr_part (slice_at t.slices i)) [
  | false ↦ round_pass nr_part pending t
  | true ↦ elim (start_round t i) [ none ↦ none | some t' ↦ round_pass nr_part pending t' ]
]
