-- ===== src/ReceiveData/Table.antt =====
-- The receiver's table of slices, src/receivedata.rs: finding a slice, opening one, completing one.
use udpcast_rs.Base.{
  ℕ, suc, ◌+◌, ◌-◌, ◌%◌, ◌^◌, Bool, true, false, not, ◌&&◌, ◌==◌, Option, none, some, List, [], ◌∷◌,
  Bytes, get_or, set, replicate, ltb, if◌then◌else◌, ◌>>=◌, usize_add, usize_mul,
}
use udpcast_rs.Fifo.{Fifo}
use udpcast_rs.Produconsum.{Wakeup, consume, get_consumer_position}
use udpcast_rs.ReceiveData.{SliceState, free, receiving, Slice, Client, is_finished, complete_slice}

pub record Table : Type 0 where
  pub slices : List Slice
  pub current_slice : Option ℕ
  pub fifo : Fifo
  pub client : Client

abbrev pub is_free : SliceState → Bool
is_free free = true
is_free _ = false

-- A slot as `Slice::new` makes it, with the slice number -1.
abbrev pub empty_slice : Slice
empty_slice = record {
  state = free;
  base = 0;
  slice_no = 2 ^ 32 - 1;
  blocks_transferred = 0;
  data_blocks_transferred = 0;
  bytes = 0;
  bytes_known = false;
  retransmit_map = replicate 128 0;
  fec_stripes = 0;
  fec_block_nos = [];
  fec_blocks = [];
}

abbrev pub slot : List Slice → ℕ → Slice
slot slices i = get_or slices i empty_slice

unfoldable pub position : (Slice → Bool) → ℕ → List Slice → Option ℕ
position p i [] = none
position p i (s ∷ ss) = let rest = position p (suc i) ss in if p s then some i else rest

-- The slice with the number that is not free.
unfoldable pub scan : List Slice → ℕ → Option ℕ
scan slices slice_no = position (λ s. s.slice_no == slice_no && not (is_free s.state)) 0 slices

unfoldable pub find_slice : List Slice → Option ℕ → ℕ → Option ℕ
find_slice slices none slice_no = scan slices slice_no
find_slice slices (some idx) slice_no =
    if (slot slices idx).slice_no == slice_no then some idx else scan slices slice_no

-- A free slot, or else one whose slice has been handed over.
unfoldable pub choose : List Slice → Option ℕ
choose slices = elim (position (λ s. is_free s.state) 0 slices) [
  | some i ↦ some i
  | none ↦ position (λ s. is_finished s.state) 0 slices
]

-- How `new_slice` comes out; `waiting` means that it still waits for free memory.
pub data NewSlice : Type 0 where
  no_slot waiting : NewSlice
  opened : ℕ → Table → NewSlice

-- The slot's new slice, at its place in the ring.
unfoldable pub open_slice : (slice_no base : ℕ) → Slice
open_slice slice_no base = record {
  state = receiving;
  base = base;
  slice_no = slice_no;
  blocks_transferred = 0;
  data_blocks_transferred = 0;
  bytes = 0;
  bytes_known = false;
  retransmit_map = replicate 128 0;
  fec_stripes = 0;
  fec_block_nos = [];
  fec_blocks = [];
}

unfoldable pub new_slice : Table → (slice_no block_size : ℕ) → List Wakeup → NewSlice
new_slice t slice_no block_size wakeups = elim (choose t.slices) [
  | none ↦ no_slot
  | some i ↦ elim (consume (usize_mul block_size 1024) t.fifo.free_mem_queue wakeups) [
    | none ↦ waiting
    | some r ↦ opened i (record t {
      slices = set t.slices i (open_slice slice_no (get_consumer_position r.queue));
      fifo = record t.fifo { free_mem_queue = r.queue };
    })
  ]
]

-- `complete_slice` on a slot of the table.
unfoldable pub complete_at : Table → ℕ → Option Table
complete_at t i = do
  r ← complete_slice (record { slice = slot t.slices i; fifo = t.fifo; client = t.client })
  some (record t { slices = set t.slices i r.slice; fifo = r.fifo; client = r.client })

-- An i32 as a usize, with its sign extended.
abbrev pub as_usize : ℕ → ℕ
as_usize x = if ltb x (2 ^ 31) then x else x + 2 ^ 64 - 2 ^ 32

abbrev pub answer : Table → Bytes → Table
answer t packet = record t { client = record t.client { sent = packet ∷ t.client.sent } }

-- What a message of the sender leaves; `blocked` is a wait for free memory that has not ended.
pub data Step : Type 0 where
  panic blocked : Step
  next : Table → Step

abbrev pub stepped : Option Table → Step
stepped none = panic
stepped (some t) = next t

-- `(slice.base + i * block_size) % fifo.data_buf_size`
abbrev pub place : ℕ → Slice → Fifo → ℕ → ℕ
place block_size s f i = usize_add s.base (usize_mul i block_size) % f.data_buf_size
