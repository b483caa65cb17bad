-- ===== src/SendData/Blocks/Resent.antt =====
-- What `rexmit_slice` sends: every block that was asked for and not sent again yet, twice.
use mathlib.Core.List.{append-nil}
use udpcast_rs.Base.{
  ℕ, zero, suc, ◌+◌, ◌<◌, ◌≤◌, ◌≡◌, refl, ap, ◌∙◌, arith, true, false, ◌&&◌, ◌||◌, ◌++◌, ◌⊎◌, inl,
  inr, some, List, [], ◌∷◌, Bytes, length, Bool-cases, ltb, if◌then◌else◌, u32,
}
use udpcast_rs.Bitmap.{bit_is_set, set_bit}
use udpcast_rs.Bitmap.Laws.{IsBytes, bit_is_set-set_bit, set_bit-IsBytes, length-set_bit}
use udpcast_rs.Fifo.{Fifo}
use udpcast_rs.Fifo.Ring.{IsValid}
use udpcast_rs.Statistics
use udpcast_rs.Statistics.{SenderStats}
use udpcast_rs.SendData.{Slice}
use udpcast_rs.SendData.Answers.{nr_blocks}
use udpcast_rs.SendData.Blocks.{
  Resend, block_start, block_bytes, block_header, wanted, rexmit_block, rexmit_blocks, rexmit_slice,
}
use udpcast_rs.SendData.Blocks.Packets.{packet_of, data_packet-packet_of}

-- The packets for the wanted blocks below `n`, in order.
pub resent : ℕ → Fifo → Slice → ℕ → List Bytes
resent block_size f s zero = []
resent block_size f s (suc n) =
    resent block_size f s n
    ++ (if wanted s n then packet_of block_size f s n ∷ packet_of block_size f s n ∷ [] else [])

-- The slice with the two fields that the loop changes.
abbrev progress : Slice → Bytes → ℕ → Slice
progress s map good = record s { is_xmitted_map = map; last_good_block = good }

-- What has happened after the blocks below `n`.
pub record Done (block_size : ℕ) (f : Fifo) (s : Slice) (n : ℕ) (r : Resend) : Type 0 where
  pub rest : r.slice ≡ progress s r.slice.is_xmitted_map r.slice.last_good_block
  pub bytes : IsBytes r.slice.is_xmitted_map
  pub whole : length r.slice.is_xmitted_map ≡ 128
  pub marked :
      (j : ℕ)
      → bit_is_set j r.slice.is_xmitted_map
        ≡ (bit_is_set j s.is_xmitted_map || (ltb j n && wanted s j))
  pub sent : r.packets ≡ resent block_size f s n
  pub good : (r.slice.last_good_block ≡ s.last_good_block) ⊎ (r.slice.last_good_block < n)

-- A block that is passed over, and one that is sent.
passed : ℕ → Resend → Resend
passed n r = record r {
  slice = record r.slice {
    last_good_block = if ltb r.slice.last_good_block n then n else r.slice.last_good_block;
  };
}

sent_twice : ℕ → Bytes → Resend → Resend
sent_twice n packet r = record {
  slice = record r.slice { is_xmitted_map = set_bit n r.slice.is_xmitted_map };
  retransmissions = u32 (r.retransmissions + 2);
  packets = r.packets ++ (packet ∷ packet ∷ []);
}

module _ (block_size : ℕ) (f : Fifo) (s : Slice) (v : IsValid f) (p : 0 < f.data_buf_size)
    (l : block_size ≤ f.data_buf_size) where
  pass-block :
      (n : ℕ) (r : Resend)
      → wanted r.slice n ≡ false
      → rexmit_block block_size f n r ≡ some (passed n r)
  unfolding rexmit_block passed
  pass-block n r e = rw e refl

  send-block :
      (n : ℕ) (r : Resend)
      → wanted r.slice n ≡ true
      → rexmit_block block_size f n r ≡ some (sent_twice n (packet_of block_size f r.slice n) r)
  unfolding rexmit_block sent_twice
  send-block n r e = rw (e, data_packet-packet_of block_size f r.slice n v p l) refl

  module _ (n : ℕ) (r : Resend) (lt : n < 1024) (d : Done block_size f s n r) where
    wanted-same : wanted r.slice n ≡ wanted s n
    unfolding wanted
    wanted-same = ground (arith, ap (λ (x : Slice). bit_is_set n x.rxmit_map) d.rest, d.marked n)

    packet_of-same : packet_of block_size f r.slice n ≡ packet_of block_size f s n
    unfolding packet_of block_start block_bytes block_header
    packet_of-same = ap (λ (x : Slice). packet_of block_size f x n) d.rest

    passed-Done : wanted s n ≡ false → Done block_size f s (suc n) (passed n r)
    unfolding passed resent
    passed-Done e = record {
      rest =
          ap (λ (x : Slice). record x { last_good_block = (passed n r).slice.last_good_block })
            d.rest;
      bytes = d.bytes;
      whole = d.whole;
      marked = λ j. ground (arith, d.marked j, e, ap (wanted s));
      sent = rw (e, append-nil) d.sent;
      good = ground (arith, d.good);
    }

    sent-Done :
        wanted s n ≡ true
        → Done block_size f s (suc n) (sent_twice n (packet_of block_size f r.slice n) r)
    unfolding sent_twice resent
    sent-Done e = record {
      rest =
          ap (λ (x : Slice). record x { is_xmitted_map = set_bit n r.slice.is_xmitted_map }) d.rest;
      bytes = set_bit-IsBytes n r.slice.is_xmitted_map d.bytes;
      whole = length-set_bit n r.slice.is_xmitted_map ∙ d.whole;
      marked = λ j. ground (
        arith,
        d.marked j,
        e,
        ap (wanted s),
        bit_is_set-set_bit n j r.slice.is_xmitted_map d.bytes (omega (arith, d.whole)),
      );
      sent = rw (e, packet_of-same, d.sent) refl;
      good = ground (arith, d.good);
    }

  block-Done :
      (n : ℕ) (r : Resend)
      → n < 1024
      → Done block_size f s n r
      → (r' : Resend) × (rexmit_block block_size f n r ≡ some r') × Done block_size f s (suc n) r'
  block-Done n r lt d = elim (Bool-cases (wanted s n)) [
    | inr e ↦ (passed n r, pass-block n r (wanted-same n r lt d ∙ e), passed-Done n r lt d e)
    | inl e ↦ (
      sent_twice n (packet_of block_size f r.slice n) r,
      send-block n r (wanted-same n r lt d ∙ e),
      sent-Done n r lt d e,
    )
  ]

  blocks-Done :
      (n : ℕ) (r : Resend)
      → n ≤ 1024
      → Done block_size f s 0 r
      → (r' : Resend) × (rexmit_blocks block_size f n r ≡ some r') × Done block_size f s n r'
  unfolding rexmit_blocks
  blocks-Done zero r lt d = (r, refl, d)
  blocks-Done (suc n) r lt d = step (blocks-Done n r (omega arith) d)
    where
      step :
          ((r' : Resend) × (rexmit_blocks block_size f n r ≡ some r') × Done block_size f s n r')
          → (r' : Resend) × (rexmit_blocks block_size f (suc n) r ≡ some r')
            × Done block_size f s (suc n) r'
      step (r', e, d') = rw e (block-Done n r' (omega arith) d')

-- What `rexmit_slice` is to leave: the packets, and the slice with its maps and its good block.
pub record IsResent (block_size : ℕ) (f : Fifo) (s s' : Slice) (packets : List Bytes) : Type 0 where
  pub all : packets ≡ resent block_size f s (nr_blocks s.bytes block_size)
  pub marked :
      (j : ℕ)
      → bit_is_set j s'.is_xmitted_map
        ≡ (bit_is_set j s.is_xmitted_map || (ltb j (nr_blocks s.bytes block_size) && wanted s j))
  pub settled : s'.need_rxmit ≡ false
  pub good :
      (s'.last_good_block ≡ s.last_good_block) ⊎ (s'.last_good_block < nr_blocks s.bytes block_size)

-- In a valid ring that holds at least a block, for a slice of at most 1024 blocks whose map of sent
-- blocks has 128 bytes, sending again succeeds. Its packets are, in order and twice each, those of
-- the blocks that were asked for and not sent again yet; these blocks are marked, no other, nothing
-- more is asked for, and the last good block is as before or one of the slice's.
pub rexmit_slice_lem :
    (block_size : ℕ) (f : Fifo) (s : Slice) (stats : SenderStats)
    → IsValid f
    → 0 < f.data_buf_size
    → block_size ≤ f.data_buf_size
    → nr_blocks s.bytes block_size ≤ 1024
    → IsBytes s.is_xmitted_map
    → length s.is_xmitted_map ≡ 128
    → (s' : Slice) × (stats' : SenderStats) × (packets : List Bytes) × (rexmit_slice block_size f s
          stats
        ≡ some (s', stats', packets))
      × IsResent block_size f s s' packets
unfolding rexmit_slice resent
rexmit_slice_lem block_size f s stats v p l n b w =
    finish (blocks-Done block_size f s v p l (nr_blocks s.bytes block_size) start n start-Done)
  where
    start : Resend
    start = record { slice = s; retransmissions = 0; packets = [] }

    start-Done : Done block_size f s 0 start
    start-Done = record {
      rest = refl;
      bytes = b;
      whole = w;
      marked = λ j. ground arith;
      sent = refl;
      good = inl refl;
    }

    finish :
        ((r : Resend) × (rexmit_blocks block_size f (nr_blocks s.bytes block_size) start ≡ some r)
          × Done block_size f s (nr_blocks s.bytes block_size) r)
        → (s' : Slice) × (stats' : SenderStats) × (packets : List Bytes) × (rexmit_slice block_size
              f s stats
            ≡ some (s', stats', packets))
          × IsResent block_size f s s' packets
    finish (r, e, d) = (
      record r.slice { need_rxmit = false },
      if ltb 0 r.retransmissions
          then Statistics.add_retransmissions stats r.retransmissions
          else stats,
      r.packets,
      rw e refl,
      record { all = d.sent; marked = d.marked; settled = refl; good = d.good },
    )
