-- ===== src/SendData/Parity/Regions.antt =====
-- The FEC blocks in `fec_data`: each is read and written without touching the others.
use udpcast_rs.Base.{
  ℕ, ◌+◌, ◌-◌, ◌*◌, ◌%◌, ◌^◌, ◌<◌, ◌≤◌, ◌≡◌, ◌≢◌, refl, sym, ◌∙◌, arith, some, Bytes, length, take,
  drop, copy_at, le→leb, min, length-take, length-drop, get_or, get_or_ext, get_or-take,
  get_or-drop, dec_lt, length-copy_at, get_or-copy_at_in, get_or-copy_at_before,
  get_or-copy_at_after,
}
use udpcast_rs.ReceiveData.Content.{gap}
use udpcast_rs.SendData.Parity.{FecConfig, fec_offset, fec_region}

-- The bytes of FEC block `i`.
abbrev pub region : FecConfig → Bytes → ℕ → Bytes
region c d i = take c.block_size (drop (i * c.block_size) d)

module _ (c : FecConfig) (n : ℕ) (small : n * c.block_size < 2 ^ 64) where
  pub offset : (i : ℕ) → i < n → fec_offset c i ≡ i * c.block_size
  offset i lt = omega (arith, gap c.block_size i n lt, small)

  module _ (d : Bytes) (l : length d ≡ n * c.block_size) where
    pub length-region : (i : ℕ) → i < n → length (region c d i) ≡ c.block_size
    length-region i lt = omega (
      arith,
      gap c.block_size i n lt,
      length-take c.block_size (drop (i * c.block_size) d),
      length-drop (i * c.block_size) d,
      l,
    )

    pub fec_region_lem : (i : ℕ) → i < n → fec_region c d i ≡ some (region c d i)
    unfolding fec_region
    fec_region_lem i lt =
        rw
          (
            offset i lt,
            ending,
            le→leb (i * c.block_size) (i * c.block_size + c.block_size) (omega arith),
            width,
          )
          refl
      where
        ending :
            min ((i * c.block_size + c.block_size) % 2 ^ 64) (length d)
            ≡ i * c.block_size + c.block_size
        ending = omega (arith, gap c.block_size i n lt, small, l)

        width : i * c.block_size + c.block_size - i * c.block_size ≡ c.block_size
        width = omega arith

    get_or-region :
        (i k : ℕ) → k < c.block_size → get_or (region c d i) k 0 ≡ get_or d (i * c.block_size + k) 0
    get_or-region i k lt =
        get_or-take c.block_size (drop (i * c.block_size) d) k 0 lt
        ∙ get_or-drop (i * c.block_size) d k 0

  module _ (d x : Bytes) (i : ℕ) (l : length d ≡ n * c.block_size) (w : length x ≡ c.block_size)
      (lt : i < n) where
    fits : i * c.block_size + length x ≤ length d
    fits = omega (arith, gap c.block_size i n lt, l, w)

    pub written-length : length (copy_at (i * c.block_size) x d) ≡ n * c.block_size
    written-length = length-copy_at (i * c.block_size) x d fits ∙ l

    pub written : region c (copy_at (i * c.block_size) x d) i ≡ x
    written = get_or_ext 0 _ x (length-region _ written-length i lt ∙ sym w) (λ k less.
        let m : k < c.block_size = omega (arith, less, length-region _ written-length i lt) in
        get_or-region _ written-length i k m
        ∙ get_or-copy_at_in (i * c.block_size) x d fits k (omega (arith, m, w)))

    pub kept : (j : ℕ) → j < n → j ≢ i → region c (copy_at (i * c.block_size) x d) j ≡ region c d j
    kept j less ne =
        get_or_ext 0 _ (region c d j)
          (length-region _ written-length j less ∙ sym (length-region d l j less))
          (λ k k_less.
            let m : k < c.block_size =
              omega (arith, k_less, length-region _ written-length j less) in
            get_or-region _ written-length j k m ∙ away k m ∙ sym (get_or-region d l j k m))
      where
        away :
            (k : ℕ)
            → k < c.block_size
            → get_or (copy_at (i * c.block_size) x d) (j * c.block_size + k) 0
              ≡ get_or d (j * c.block_size + k) 0
        away k m = elim (dec_lt j i) [
          | yes p ↦
              get_or-copy_at_before (i * c.block_size) x d fits (j * c.block_size + k)
                (omega (arith, gap c.block_size j i p, m))
          | no p ↦
              get_or-copy_at_after (i * c.block_size) x d fits (j * c.block_size + k)
                (omega (arith, gap c.block_size i j (omega (arith, p, ne)), w))
        ]
