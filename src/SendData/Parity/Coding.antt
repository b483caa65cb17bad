-- ===== src/SendData/Parity/Coding.antt =====
-- The FEC blocks of a slice that lies in a valid ring.
use udpcast_rs.Base.{
  ℕ, ◌+◌, ◌*◌, ◌^◌, ◌<◌, ◌≤◌, ◌≡◌, sym, ap, ◌∙◌, subst, Option, none, some, List, [], Bytes, length,
}
use udpcast_rs.Fec.Encoding.{parities}
use udpcast_rs.Fec.Matrix.{nth}
use udpcast_rs.Fifo.{Fifo}
use udpcast_rs.SendData.{Slice}
use udpcast_rs.SendData.Answers.{nr_blocks}
use udpcast_rs.SendData.Parity.{FecConfig, fec_encode_slice}
use udpcast_rs.SendData.Parity.Regions.{region}
use udpcast_rs.SendData.Parity.Writing.{IsRoom}
use udpcast_rs.SendData.Parity.Encoded.{data_of, IsStripe, fec_encode_slice-parities}
use udpcast_rs.SendData.Parity.Reading.{IsSource, data_of_lem}

abbrev found : Option (List Bytes) → List Bytes
found none = []
found (some ds) = ds

found-eq :
    (block_size : ℕ) (o : Option (List Bytes))
    → ((ds : List Bytes) × (o ≡ some ds) × IsStripe block_size ds)
    → (o ≡ some (found o)) × IsStripe block_size (found o)
found-eq block_size o (ds, e, h) =
    (e ∙ ap some (sym (ap found e)), subst (IsStripe block_size) (sym (ap found e)) h)

-- Let the `fec_data` of a slice be bytes, with room for exactly the stripes times the redundancy of
-- FEC blocks, at least one and at most 128 for each stripe, and fewer than 2 ^ 64 bytes of them in
-- all. Let the ring be valid, hold bytes and have room for a block, and let the slice have at least
-- one block and at most 128 for each stripe. Then each stripe is read from the ring as 1 to 128
-- whole blocks, and `fec_encode_slice` succeeds, changes nothing but `fec_data`, and leaves there,
-- as FEC block number stripe + r * stripes, parity `r` of the data blocks of that stripe: the
-- interleaved stripes do not overwrite each other.
pub fec_encode_slice_lem :
    (c : FecConfig) (f : Fifo) (s : Slice) (n : ℕ)
    → n ≡ c.fec_redundancy * c.fec_stripes
    → n * c.block_size < 2 ^ 64
    → 0 < c.fec_redundancy
    → c.fec_redundancy ≤ 128
    → c.fec_stripes ≤ nr_blocks s.bytes c.block_size
    → nr_blocks s.bytes c.block_size ≤ 128 * c.fec_stripes
    → IsSource c.block_size f
    → IsRoom c n s.fec_data
    → (d : Bytes) × (fec_encode_slice c f s ≡ some (record s { fec_data = d }))
      × (length d ≡ n * c.block_size)
      × ((a : ℕ)
          → a < c.fec_stripes
          → (ds : List Bytes) × (data_of c f s a ≡ some ds)
            × IsStripe c.block_size ds
            × ((r : ℕ)
                → r < c.fec_redundancy
                → nth (parities c.block_size ds c.fec_redundancy 0) r
                  ≡ some (region c d (a + r * c.fec_stripes))))
fec_encode_slice_lem c f s n e small red few enough most source room =
    let (d, run, l, at) =
      fec_encode_slice-parities c f s n (λ a. found (data_of c f s a)) e small red few
        (λ a la.
          found-eq c.block_size (data_of c f s a) (data_of_lem c f s source enough most a la))
        room in
    (
      d,
      run,
      l,
      λ a la.
          let (read, stripe) =
            found-eq c.block_size (data_of c f s a) (data_of_lem c f s source enough most a la) in
          (found (data_of c f s a), read, stripe, λ r lr. at a r la lr),
    )
