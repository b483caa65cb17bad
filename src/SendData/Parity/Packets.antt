-- ===== src/SendData/Parity/Packets.antt =====
-- The packets of a slice's FEC blocks.
use mathlib.Core.List.{append-nil}
use udpcast_rs.Base.{
  ℕ, zero, suc, ◌+◌, ◌-◌, ◌*◌, ◌^◌, ◌<◌, ◌≤◌, ◌≡◌, refl, ap, ◌∙◌, arith, ◌++◌, some, List, [], ◌∷◌,
  Bytes, length, u32,
}
use udpcast_rs.Fec.Matrix.{nth}
use udpcast_rs.Protocol.Pack.{pack_fec_block, unpack_fec_block}
use udpcast_rs.Protocol.Pack.RoundTrip.{unpack-pack_fec_block}
use udpcast_rs.SendData.{Slice}
use udpcast_rs.SendData.Parity.Regions.{region, length-region, fec_region_lem}
use udpcast_rs.SendData.Parity.{FecConfig, fec_header, fec_packet, fec_packets, send_fec_blocks}

nth-cons :
    (x : Bytes) (ps : List Bytes) (f : ℕ → Bytes) (m i : ℕ)
    → x ≡ f i
    → ((j : ℕ) → j < m → nth ps j ≡ some (f (i + 1 + j)))
    → (j : ℕ) → j < suc m
    → nth (x ∷ ps) j ≡ some (f (i + j))
unfolding nth
nth-cons x ps f m i e at zero lt = ap some (e ∙ ap f (omega arith))
nth-cons x ps f m i e at (suc j) lt =
    at j (omega (arith, lt)) ∙ ap (λ (t : ℕ). some (f t)) (omega arith)

module _ (c : FecConfig) (s : Slice) (n : ℕ) (l : length s.fec_data ≡ n * c.block_size)
    (small : n * c.block_size < 2 ^ 64) where
  packet-eq :
      (i : ℕ)
      → i < n
      → fec_packet c s i ≡ some (pack_fec_block (fec_header c s i) ++ region c s.fec_data i)
  unfolding fec_packet
  packet-eq i lt =
      let e = fec_region_lem c n small s.fec_data l i lt in
      let whole = length-region c n small s.fec_data l i lt in
      let filled : c.block_size - length (region c s.fec_data i) ≡ 0 = omega (arith, whole) in
      rw (e, filled, append-nil) refl

  packets-nth :
      (rounds i : ℕ)
      → i + rounds ≤ n
      → (ps : List Bytes) × (fec_packets c s rounds i ≡ some ps)
        × (length ps ≡ rounds)
        × ((j : ℕ)
            → j < rounds
            → nth ps j
              ≡ some (pack_fec_block (fec_header c s (i + j)) ++ region c s.fec_data (i + j)))
  unfolding fec_packets nth
  packets-nth zero i le = ([], refl, refl, λ j lt. absurd (omega arith))
  packets-nth (suc m) i le =
      let (ps, e, lp, at) = packets-nth m (i + 1) (omega (arith, le)) in
      (
        (pack_fec_block (fec_header c s i) ++ region c s.fec_data i) ∷ ps,
        rw (packet-eq i (omega (arith, le)), e) refl,
        omega (arith, lp),
        nth-cons _ ps (λ k. pack_fec_block (fec_header c s k) ++ region c s.fec_data k) m i refl at,
      )

-- Let a slice have room for exactly `n` FEC blocks, as many as the stripes times the redundancy, at
-- most 65536, of fewer than 2 ^ 64 bytes in all, with fewer than 32768 stripes and an i32 slice
-- number. Then `send_fec_blocks` sends `n` packets. Packet `i` is a header that `unpack_fec_block`
-- reads back, with the block number `i` and the slice's number and bytes, and behind it one whole
-- block: the bytes of `fec_data` from `i` block sizes on.
pub send_fec_blocks_lem :
    (c : FecConfig) (s : Slice) (n : ℕ)
    → n ≡ c.fec_redundancy * c.fec_stripes
    → n ≤ 2 ^ 16
    → c.fec_stripes < 2 ^ 15
    → length s.fec_data ≡ n * c.block_size
    → n * c.block_size < 2 ^ 64
    → s.slice_no < 2 ^ 32
    → (ps : List Bytes) × (send_fec_blocks c s ≡ some ps)
      × (length ps ≡ n)
      × ((i : ℕ)
          → i < n
          → (p : Bytes) × (nth ps i ≡ some p)
            × (p ≡ pack_fec_block (fec_header c s i) ++ region c s.fec_data i)
            × (length (region c s.fec_data i) ≡ c.block_size)
            × (unpack_fec_block p
                ≡ some (record {
                  stripes = c.fec_stripes;
                  slice_no = s.slice_no;
                  block_no = i;
                  bytes = u32 s.bytes;
                })))
unfolding send_fec_blocks fec_header
send_fec_blocks_lem c s n e le st l small sn =
    let (ps, sends, lp, at) = packets-nth c s n l small n 0 (omega arith) in
    (
      ps,
      ap (λ (t : ℕ). fec_packets c s t 0) (omega (arith, e, le)) ∙ sends,
      lp,
      λ i lt. (
        pack_fec_block (fec_header c s i) ++ region c s.fec_data i,
        at i lt
            ∙ ap (λ (t : ℕ). some (pack_fec_block (fec_header c s t) ++ region c s.fec_data t))
                (omega arith),
        refl,
        length-region c n small s.fec_data l i lt,
        unpack-pack_fec_block (fec_header c s i) (region c s.fec_data i)
              (omega (arith, st), omega (arith, st)) sn (omega arith) (omega arith)
            ∙ ap
                (λ (t : ℕ). some (record {
                  stripes = c.fec_stripes;
                  slice_no = s.slice_no;
                  block_no = t;
                  bytes = u32 s.bytes;
                }))
                (omega (arith, lt, le)),
      ),
    )
