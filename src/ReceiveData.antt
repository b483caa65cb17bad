-- ===== src/ReceiveData.antt =====
-- The receiver's slices, src/receivedata.rs: the table of slices that arrive, and `complete_slice`,
-- which hands a slice to the writer. The datagrams that go out are a list.
pub mod Ending
pub mod Table
pub mod Recover
pub mod Blocks
pub mod Requests
pub mod Stripes
pub mod Counts
pub mod Tallies
pub mod Steps
pub mod Packets
pub mod Safety
pub mod Answering
pub mod Content
pub mod Holdings
pub mod Delivery
pub mod Restoring
pub mod Loop
pub mod Leaving
mod Tests
mod BlockTests
mod FecTests
use udpcast_rs.Base.{
  ℕ, zero, suc, ◌+◌, ◌-◌, ◌^◌, ◌++◌, Bool, true, false, not, ◌&&◌, ◌||◌, ◌==◌, Option, none, some,
  List, [], ◌∷◌, Bytes, replicate, length, get_or, set, ltb, leb, if◌then◌else◌,
}
use udpcast_rs.Fifo.{Fifo}
use udpcast_rs.Protocol.Pack.{pack_ok}
use udpcast_rs.Produconsum
use udpcast_rs.Produconsum.{Produce, done, fatal}

pub data SliceState : Type 0 where
  free receiving finished : SliceState  -- `Done` is `finished`

pub record Slice : Type 0 where
  pub state : SliceState
  pub base : ℕ
  pub slice_no : ℕ  -- i32
  pub blocks_transferred : ℕ
  pub data_blocks_transferred : ℕ
  pub bytes : ℕ
  pub bytes_known : Bool
  pub retransmit_map : Bytes
  pub fec_stripes : ℕ
  pub fec_block_nos : List ℕ
  pub fec_blocks : List Bytes

-- The fields of `ClientConfig` that a transfer changes, and what has been sent, newest first.
pub record Client : Type 0 where
  pub is_started : Bool
  pub completed_slices : List Bool
  pub end_marker_seen : Bool
  pub sent : List Bytes

abbrev pub is_finished : SliceState → Bool
is_finished finished = true
is_finished _ = false

-- `*completed_slices.get(j).unwrap_or(&false)`
abbrev pub is_completed : List Bool → ℕ → Bool
is_completed completed j = get_or completed j false

-- `resize` where the index is past the end, and the write at it.
unfoldable pub mark_completed : List Bool → ℕ → List Bool
mark_completed completed n =
    set
      (if leb (length completed) n
        then completed ++ replicate (n + 1 - length completed) false
        else completed)
      n true

-- Every slice below `n` is complete.
unfoldable pub all_done : List Bool → ℕ → Bool
all_done completed zero = true
all_done completed (suc n) = all_done completed n && is_completed completed n

-- What a slice is handed over with.
pub record Receiver : Type 0 where
  pub slice : Slice
  pub fifo : Fifo
  pub client : Client

-- The slice's bytes pass from the free memory to the writer; `none` is the `fatal` of `produce`.
unfoldable pub hand_over : Slice → Fifo → Option Fifo
hand_over s f = elim (Produconsum.produce f.filled s.bytes) [
  | fatal ↦ none
  | done q notified ↦ some (record f {
    free_mem_queue = Produconsum.consume_amount f.free_mem_queue s.bytes;
    filled = q;
  })
]

-- The end marker ends the transfer if every earlier slice is complete.
unfoldable pub end_transfer : List Bool → ℕ → Fifo → Fifo
end_transfer completed slice_no f = elim (all_done completed slice_no) [
  | false ↦ f
  | true ↦ elim (Produconsum.produce_end f.filled) [
    | fatal ↦ f
    | done q notified ↦ record f { filled = q }
  ]
]

-- A negative slice number, as a usize, is past what `resize` can allocate: a panic.
unfoldable pub complete_slice : Receiver → Option Receiver
complete_slice r =
    if is_finished r.slice.state
    then some r
    else if leb (2 ^ 31) r.slice.slice_no
    then none
    else (let completed = mark_completed r.client.completed_slices r.slice.slice_no in
        let slice = record r.slice { state = finished } in
        let ok = pack_ok (record { slice_no = r.slice.slice_no }) in
        if ltb 0 r.slice.bytes
        then elim (hand_over r.slice r.fifo) [
          | none ↦ none
          | some f ↦ some (record {
            slice = slice;
            fifo = f;
            client = record r.client { completed_slices = completed; sent = ok ∷ r.client.sent };
          })
        ]
        else some (record {
          slice = slice;
          fifo = end_transfer completed r.slice.slice_no r.fifo;
          client = record r.client {
            completed_slices = completed;
            end_marker_seen = r.client.end_marker_seen || not (all_done completed r.slice.slice_no);
            sent = ok ∷ r.client.sent;
          };
        }))
