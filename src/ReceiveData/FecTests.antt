-- ===== src/ReceiveData/FecTests.antt =====
-- A stripe of two blocks that lost the first, and the theorem at it.
use udpcast_rs.Base.{
  ℕ, ◌+◌, ◌*◌, ◌%◌, ◌^◌, ◌≡◌, refl, arith, true, false, some, [], ◌∷◌, Bytes, length, replicate,
  subst, ℕ_discrete,
}
use udpcast_rs.Bitmap.{test, bit_is_set, set_bit}
use udpcast_rs.Bitmap.Laws.{bit_is_set-zeros, bit_is_set-set_bit, zeros-IsBytes}
use udpcast_rs.Bitmap.Sizes.{zeros-IsCount, add-IsCount}
use udpcast_rs.Fec.Encoding.{parity}
use udpcast_rs.Fec.Matrix.{nth}
use udpcast_rs.Fifo.{Fifo, read_at, slice}
use udpcast_rs.Produconsum.{Produconsum}
use udpcast_rs.ReceiveData.{Slice, receiving}
use udpcast_rs.ReceiveData.Recover.{
  Recovery, stripe_indices, stripe_of, held, erased_positions, select_fec, recover_stripe,
}
use udpcast_rs.ReceiveData.Holdings.{Stores}
use udpcast_rs.ReceiveData.Restoring.{recover_stripe-restores}

abbrev queue : Produconsum
queue = record { size = 1024; produced = 0; consumed = 0; at_end = false; consumer_waiting = false }

abbrev ring : Bytes → Fifo
ring buffer = record {
  buffer = buffer;
  data_buf_size = length buffer;
  free_mem_queue = queue;
  filled = queue;
}

abbrev sent : ℕ → Bytes
sent j = 7 ∷ []

-- Block 1 of two is there, and the first FEC block.
abbrev lossy_slice : Slice
lossy_slice = record {
  state = receiving;
  base = 0;
  slice_no = 0;
  blocks_transferred = 2;
  data_blocks_transferred = 1;
  bytes = 2;
  bytes_known = true;
  retransmit_map = set_bit 1 (replicate 128 0);
  fec_stripes = 1;
  fec_block_nos = 0 ∷ [];
  fec_blocks = parity 1 0 0 (sent 0 ∷ sent 1 ∷ []) ∷ [];
}

abbrev lossy : Recovery
lossy = record { slice = lossy_slice; fifo = ring (0 ∷ 7 ∷ replicate 1022 0) }

block_one : read_at lossy.fifo 1 1 ≡ some (7 ∷ [])
unfolding read_at slice
block_one = refl

lossy-Stores : Stores 1 sent lossy.slice lossy.fifo
lossy-Stores = record {
  room = record {
    valid = record { whole = refl; small = omega arith };
    some_bytes = omega arith;
    slice_fits = omega arith;
    small = omega arith;
    inside = omega arith;
  };
  tallied = add-IsCount (replicate 128 0) 0 1 zeros-IsCount (omega arith) (bit_is_set-zeros 128 1);
  there = λ j lt b. elim (ℕ_discrete 1 j) [
    | yes e ↦
        subst
          (λ (k : ℕ). read_at lossy.fifo ((0 + k * 1 % 2 ^ 64) % 2 ^ 64 % 1024) 1 ≡ some (7 ∷ [])) e
          block_one
    | no ne ↦ ground (
      arith,
      b,
      ne,
      bit_is_set-set_bit 1 j (replicate 128 0) (zeros-IsBytes 128) (omega arith),
      bit_is_set-zeros 128 j,
    )
  ];
}

first_lost :
    erased_positions lossy.slice.retransmit_map 0 (stripe_of 1 0 lossy.slice) ≡ some (0 ∷ [])
unfolding erased_positions stripe_of stripe_indices held bit_is_set set_bit test
first_lost = refl

selected :
    select_fec 1 0 (0 ∷ []) lossy_slice.fec_blocks
    ≡ some (0 ∷ [], parity 1 0 0 (sent 0 ∷ sent 1 ∷ []) ∷ [])
unfolding select_fec
selected = refl

recover_stripe-restores_example :
    (r' : Recovery) × (i : ℕ) × (recover_stripe 1 0 lossy ≡ some r')
    × Stores 1 sent r'.slice r'.fifo
    × (nth (stripe_of 1 0 lossy.slice) 0 ≡ some i)
    × (bit_is_set i lossy.slice.retransmit_map ≡ false)
    × (bit_is_set i r'.slice.retransmit_map ≡ true)
unfolding stripe_of stripe_indices
recover_stripe-restores_example =
    recover_stripe-restores 1 0 0 sent lossy (λ j. (omega arith, tt)) lossy-Stores 0 [] []
      first_lost selected (omega arith) (omega arith)
