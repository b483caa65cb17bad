-- ===== src/SendData.antt =====
-- The sender's slices, src/senddata.rs: the ring of slices in flight, the answers that come back
-- for them, and the packets that go out. The children hold the operations.
pub mod Messages
pub mod Answers
pub mod Drop
pub mod Blocks
pub mod Transmit
pub mod Parity
mod Tests
use udpcast_rs.Base.{
  ℕ, ◌+◌, ◌%◌, ◌^◌, Bool, true, false, not, ◌&&◌, ◌==◌, Option, none, some, List, [], ◌∷◌, Bytes,
  replicate, ltb, if◌then◌else◌, suc, bit_and, bit_or,
}
use udpcast_rs.Protocol.{cap_fec, cap_async, sender_capabilities_base}

abbrev pub max_slice_size : ℕ
max_slice_size = 1024

abbrev pub nr_slices : ℕ
nr_slices = 8

pub data SliceState : Type 0 where
  free fresh xmitted acked : SliceState  -- `New` is `fresh`

pub record Slice : Type 0 where
  pub base : ℕ
  pub slice_no : ℕ  -- i32
  pub bytes : ℕ
  pub next_block : ℕ
  pub state : SliceState
  pub rxmit_map : Bytes
  pub is_xmitted_map : Bytes
  pub rxmit_id : ℕ  -- i32
  pub ready_set : Bytes
  pub answered_set : Bytes
  pub nr_ready : ℕ
  pub nr_answered : ℕ
  pub need_rxmit : Bool
  pub last_good_block : ℕ
  pub fec_data : Bytes

abbrev pub no_bits : Bytes
no_bits = replicate 128 0

-- `Slice::new`
unfoldable pub new_slice : ℕ → Slice
new_slice fec_buf_size = record {
  base = 0;
  slice_no = 0;
  bytes = 0;
  next_block = 0;
  state = free;
  rxmit_map = no_bits;
  is_xmitted_map = no_bits;
  rxmit_id = 0;
  ready_set = no_bits;
  answered_set = no_bits;
  nr_ready = 0;
  nr_answered = 0;
  need_rxmit = false;
  last_good_block = 0;
  fec_data = replicate fec_buf_size 0;
}

pub data Discovery : Type 0 where
  doubling reducing : Discovery

-- The fields of `NetConfig` that the transfer of a slice reads or writes.
pub record NetConfig : Type 0 where
  pub flags : ℕ
  pub block_size : ℕ
  pub slice_size : ℕ
  pub max_slice : ℕ  -- `max_slice_size`
  pub discovery : Discovery
  pub retries_until_drop : ℕ  -- i32

abbrev pub flag_sn : ℕ
flag_sn = 0x0001

abbrev pub flag_notsn : ℕ
flag_notsn = 0x0002

abbrev pub flag_async : ℕ
flag_async = 0x0004

abbrev pub flag_fec : ℕ
flag_fec = 0x0010

-- `flags & flag != 0`
abbrev pub has : ℕ → ℕ → Bool
has flags flag = not (bit_and flags flag == 0)

pub sender_capabilities : ℕ → ℕ
sender_capabilities flags =
    let caps =
      if has flags flag_fec
      then bit_or sender_capabilities_base cap_fec
      else sender_capabilities_base in
    if has flags flag_async then bit_or caps cap_async else caps

abbrev pub is_free : SliceState → Bool
is_free free = true
is_free _ = false

-- `position(|s| s.state != Free && s.slice_no == slice_no)`, from index `i` on.
unfoldable pub find_from : ℕ → ℕ → List Slice → Option ℕ
find_from slice_no i [] = none
find_from slice_no i (s ∷ ss) =
    if not (is_free s.state) && s.slice_no == slice_no
    then some i
    else find_from slice_no (suc i) ss

unfoldable pub find_slice : List Slice → ℕ → Option ℕ
unfolding find_from
find_slice slices slice_no = find_from slice_no 0 slices

free_slice_from : ℕ → List Slice → Option ℕ
free_slice_from i [] = none
free_slice_from i (s ∷ ss) = if is_free s.state then some i else free_slice_from (suc i) ss

unfoldable pub find_free_slice : List Slice → Option ℕ
unfolding free_slice_from
find_free_slice slices = free_slice_from 0 slices

unfoldable pub free_slice : Slice → Slice
free_slice s = record s { state = free }
