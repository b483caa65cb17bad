-- ===== src/SendData/Parity/Encoded.antt =====
-- `fec_encode_slice` leaves in the FEC blocks of each stripe the parities of its data blocks.
use udpcast_rs.Base.{
  ℕ, zero, suc, ◌+◌, ◌*◌, ◌^◌, ◌<◌, ◌≤◌, ◌≡◌, ◌≢◌, refl, sym, ap, ◌∙◌, subst, arith, some, List, [],
  ◌∷◌, Bytes, length, false, ◌==◌, ℕ_discrete, dec_lt, Option,
}
use udpcast_rs.Fec.{fec_encode}
use udpcast_rs.Fec.Encoding.{AllBlocks, parities, parity-IsBlock, fec_encode-parities}
use udpcast_rs.Fec.Matrix.{nth}
use udpcast_rs.Fifo.{Fifo}
use udpcast_rs.ReceiveData.Content.{gap}
use udpcast_rs.ReceiveData.Recover.{stripe_indices}
use udpcast_rs.SendData.{Slice}
use udpcast_rs.SendData.Answers.{nr_blocks}
use udpcast_rs.SendData.Parity.{
  FecConfig, encoded_blocks, fec_regions, write_regions, encode_stripe, encode_stripes,
  fec_encode_slice,
}
use udpcast_rs.SendData.Parity.Regions.{region, fec_region_lem}
use udpcast_rs.SendData.Parity.Writing.{
  IsRoom, write_regions-IsRoom, write_regions-kept, write_regions-nth,
}

length-parities : (n : ℕ) (ds : List Bytes) (k row : ℕ) → length (parities n ds k row) ≡ k
length-parities n ds zero row = refl
length-parities n ds (suc k) row = omega (arith, length-parities n ds k (row + 1))

parities-AllBlocks :
    (n : ℕ) (ds : List Bytes) (k row : ℕ)
    → row + k ≤ 128
    → length ds ≤ 128
    → AllBlocks n ds
    → AllBlocks n (parities n ds k row)
parities-AllBlocks n ds zero row l m a = tt
parities-AllBlocks n ds (suc k) row l m a = (
  parity-IsBlock n row 0 ds (omega arith) (omega arith) a,
  parities-AllBlocks n ds k (row + 1) (omega arith) m a,
)

some_blocks-parities :
    (n : ℕ) (ds xs : List Bytes)
    → 0 < length ds
    → length ds ≤ 128
    → length xs ≤ 128
    → AllBlocks n ds
    → AllBlocks n xs
    → fec_encode n ds xs ≡ some (parities n ds (length xs) 0)
some_blocks-parities n [] xs p l m a b = absurd (omega arith)
some_blocks-parities n (d ∷ ds) xs p l m a b = fec_encode-parities n d ds xs l m a b

-- Two places of the interleaving are equal only in the same stripe.
apart : (st a b r k : ℕ) → a < st → b < st → a ≢ b → a + r * st ≢ b + k * st
apart st a b r k la lb ne e = elim (ℕ_discrete r k) [
  | yes same ↦ ne (omega (arith, e, ap (λ (t : ℕ). t * st) same))
  | no other ↦ elim (dec_lt r k) [
    | yes p ↦ absurd (omega (arith, e, la, gap st r k p))
    | no p ↦ absurd (omega (arith, e, lb, gap st k r (omega (arith, p, other))))
  ]
]

-- What a stripe of the slice is read as.
abbrev pub data_of : FecConfig → Fifo → Slice → ℕ → Option (List Bytes)
data_of c f s a =
    let blocks = nr_blocks s.bytes c.block_size in
    encoded_blocks c.block_size f s (stripe_indices blocks c.fec_stripes a blocks)

-- Up to 128 blocks, at least one.
pub record IsStripe (block_size : ℕ) (ds : List Bytes) : Type 0 where
  pub some_blocks : 0 < length ds
  pub few : length ds ≤ 128
  pub bytes : AllBlocks block_size ds

module _ (c : FecConfig) (f : Fifo) (s : Slice) (n : ℕ) (e : n ≡ c.fec_redundancy * c.fec_stripes)
    (small : n * c.block_size < 2 ^ 64) (red : 0 < c.fec_redundancy) (few : c.fec_redundancy ≤ 128)
    (blocks : ℕ → List Bytes)
    (reads : (a : ℕ)
      → a < c.fec_stripes
      → (data_of c f s a ≡ some (blocks a)) × IsStripe c.block_size (blocks a)) where
  place : (a r : ℕ) → a < c.fec_stripes → r < c.fec_redundancy → a + r * c.fec_stripes < n
  place a r la lr = omega (arith, gap c.fec_stripes r c.fec_redundancy lr, e, la)

  regions :
      (d : Bytes)
      → IsRoom c n d
      → (k b : ℕ) → ((r : ℕ) → r < k → b + r * c.fec_stripes < n)
      → (xs : List Bytes) × (fec_regions c d k b ≡ some xs)
        × (length xs ≡ k)
        × AllBlocks c.block_size xs
  unfolding fec_regions
  regions d h zero b lt = ([], refl, refl, tt)
  regions d h (suc k) b lt =
      let here : b < n = omega (arith, lt 0 (omega arith)) in
      let (xs, read, l, a) =
        regions d h k (b + c.fec_stripes)
          (λ r less. omega (arith, lt (suc r) (omega (arith, less)))) in
      (
        region c d b ∷ xs,
        rw (fec_region_lem c n small d h.whole b here, read) refl,
        omega (arith, l),
        (h.blocks b here, a),
      )

  -- The parities of a stripe, and where they are.
  abbrev sums : ℕ → List Bytes
  sums a = parities c.block_size (blocks a) c.fec_redundancy 0

  abbrev after : ℕ → Bytes → Bytes
  after a d = write_regions c a (sums a) d

  sums-AllBlocks : (a : ℕ) → a < c.fec_stripes → AllBlocks c.block_size (sums a)
  sums-AllBlocks a la =
      let h = (reads a la).1 in
      parities-AllBlocks c.block_size (blocks a) c.fec_redundancy 0 (omega (arith, few)) h.few
        h.bytes

  sums-place :
      (a : ℕ) → a < c.fec_stripes → (r : ℕ) → r < length (sums a) → a + r * c.fec_stripes < n
  sums-place a la r less =
      place a r la (omega (arith, less, length-parities c.block_size (blocks a) c.fec_redundancy 0))

  encode_stripe_lem :
      (a : ℕ) (d : Bytes)
      → a < c.fec_stripes
      → IsRoom c n d
      → encode_stripe c f s a d ≡ some (after a d)
  unfolding encode_stripe
  encode_stripe_lem a d la h =
      let (read, stripe) = reads a la in
      let (xs, regions_read, l, xs_blocks) =
        regions d h c.fec_redundancy a (λ r less. place a r la less) in
      let not_empty : (length (blocks a) == 0) ≡ false = ground (arith, stripe.some_blocks) in
      let redundant : (c.fec_redundancy == 0) ≡ false = ground (arith, red) in
      let filled =
        some_blocks-parities c.block_size (blocks a) xs stripe.some_blocks stripe.few
          (omega (arith, l, few)) stripe.bytes xs_blocks in
      rw (read, not_empty, redundant, regions_read, filled, l) refl

  encode_stripes_lem :
      (rounds a : ℕ) (d : Bytes)
      → a + rounds ≡ c.fec_stripes
      → IsRoom c n d
      → (t : Bytes) × (encode_stripes c f s rounds a d ≡ some t)
        × IsRoom c n t
        × ((b r : ℕ)
            → b < a
            → r < c.fec_redundancy
            → region c t (b + r * c.fec_stripes) ≡ region c d (b + r * c.fec_stripes))
        × ((b r : ℕ)
            → a ≤ b
            → b < c.fec_stripes
            → r < c.fec_redundancy
            → nth (sums b) r ≡ some (region c t (b + r * c.fec_stripes)))
  unfolding encode_stripes
  encode_stripes_lem zero a d whole h =
      (d, refl, h, λ b r lb lr. refl, λ b r la lb lr. absurd (omega (arith, la, lb, whole)))
  encode_stripes_lem (suc m) a d whole h =
      let la : a < c.fec_stripes = omega (arith, whole) in
      let ok =
        write_regions-IsRoom c n small (omega arith) a (sums a) d h (sums-AllBlocks a la)
          (sums-place a la) in
      let (t, run, ok', same, sums_at) =
        encode_stripes_lem m (a + 1) (after a d) (omega (arith, whole)) ok in
      (
        t,
        rw (encode_stripe_lem a d la h, run) refl,
        ok',
        λ b r lb lr.
            same b r (omega (arith, lb)) lr
            ∙ write_regions-kept c n small (omega arith) a (sums a) d h (sums-AllBlocks a la)
                (sums-place a la) (b + r * c.fec_stripes) (place b r (omega (arith, lb, la)) lr)
                (λ k less.
                  apart c.fec_stripes b a r k (omega (arith, lb, la)) la
                    (λ bad. absurd (omega (arith, bad, lb)))),
        λ b r lb lb' lr. elim (ℕ_discrete b a) [
          | yes eq ↦
              subst (λ x. nth (sums x) r ≡ some (region c t (x + r * c.fec_stripes))) (sym eq)
                (write_regions-nth c n small (omega arith) a (sums a) d h (sums-AllBlocks a la)
                    (sums-place a la) r
                    (omega (arith, lr, length-parities c.block_size (blocks a) c.fec_redundancy 0))
                  ∙ ap some (sym (same a r (omega arith) lr)))
          | no ne ↦ sums_at b r (omega (arith, lb, ne)) lb' lr
        ],
      )

-- Let the `fec_data` of a slice be bytes, with room for exactly the stripes times the redundancy of
-- FEC blocks, at least one and at most 128 for each stripe, and fewer than 2 ^ 64 bytes of them in
-- all. Let each stripe be read from the ring as 1 to 128 blocks of bytes. Then `fec_encode_slice`
-- succeeds, changes nothing but `fec_data`, and leaves there, as FEC block number
-- stripe + r * stripes, parity `r` of the data blocks of that stripe.
pub fec_encode_slice-parities :
    (c : FecConfig) (f : Fifo) (s : Slice) (n : ℕ) (blocks : ℕ → List Bytes)
    → n ≡ c.fec_redundancy * c.fec_stripes
    → n * c.block_size < 2 ^ 64
    → 0 < c.fec_redundancy
    → c.fec_redundancy ≤ 128
    → ((a : ℕ)
        → a < c.fec_stripes
        → (data_of c f s a ≡ some (blocks a)) × IsStripe c.block_size (blocks a))
    → IsRoom c n s.fec_data
    → (d : Bytes) × (fec_encode_slice c f s ≡ some (record s { fec_data = d }))
      × (length d ≡ n * c.block_size)
      × ((a r : ℕ)
          → a < c.fec_stripes
          → r < c.fec_redundancy
          → nth (parities c.block_size (blocks a) c.fec_redundancy 0) r
            ≡ some (region c d (a + r * c.fec_stripes)))
unfolding fec_encode_slice
fec_encode_slice-parities c f s n blocks e small red few reads h =
    let (d, run, ok, same, sums_at) =
      encode_stripes_lem c f s n e small red few blocks reads c.fec_stripes 0 s.fec_data
        (omega arith) h in
    (d, rw run refl, ok.whole, λ a r la lr. sums_at a r (omega arith) la lr)
