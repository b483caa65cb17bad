-- ===== src/SendData/Parity/Writing.antt =====
-- What the encoder's regions hold once the FEC blocks of a stripe are written.
use udpcast_rs.Base.{
  ℕ, zero, suc, ◌+◌, ◌*◌, ◌^◌, ◌<◌, ◌≡◌, ◌≢◌, refl, sym, ap, ◌∙◌, subst, arith, some, List, [], ◌∷◌,
  Bytes, length, copy_at, ℕ_discrete,
}
use udpcast_rs.Fec.Blocks.{IsBlock}
use udpcast_rs.Fec.Encoding.{AllBlocks}
use udpcast_rs.Fec.Matrix.{nth}
use udpcast_rs.SendData.Parity.{FecConfig, fec_offset, write_regions}
use udpcast_rs.SendData.Parity.Regions.{region, offset, written-length, written, kept}

-- `n` blocks of bytes.
pub record IsRoom (c : FecConfig) (n : ℕ) (d : Bytes) : Type 0 where
  pub whole : length d ≡ n * c.block_size
  pub blocks : (i : ℕ) → i < n → IsBlock c.block_size (region c d i)

pub IsBlock-length : (n : ℕ) (x : Bytes) → IsBlock n x → length x ≡ n
IsBlock-length zero [] b = refl
IsBlock-length zero (x ∷ xs) b = elim b [ ]
IsBlock-length (suc n) [] b = elim b [ ]
IsBlock-length (suc n) (x ∷ xs) b = omega (arith, IsBlock-length n xs b.1)

module _ (c : FecConfig) (n : ℕ) (small : n * c.block_size < 2 ^ 64) where
  copy-IsRoom :
      (d x : Bytes) (i : ℕ)
      → IsRoom c n d
      → IsBlock c.block_size x
      → i < n
      → IsRoom c n (copy_at (fec_offset c i) x d)
  copy-IsRoom d x i h b lt =
      let e = offset c n small i lt in
      subst (λ t. IsRoom c n (copy_at t x d)) (sym e)
        record {
          whole = written-length c n small d x i h.whole (IsBlock-length c.block_size x b) lt;
          blocks = λ j less. elim (ℕ_discrete j i) [
            | yes same ↦
                subst (λ t. IsBlock c.block_size (region c (copy_at (i * c.block_size) x d) t))
                  (sym same)
                  (subst (IsBlock c.block_size)
                    (sym (written c n small d x i h.whole (IsBlock-length c.block_size x b) lt)) b)
            | no ne ↦
                subst (IsBlock c.block_size)
                  (sym
                    (kept c n small d x i h.whole (IsBlock-length c.block_size x b) lt j less ne))
                  (h.blocks j less)
          ];
        }

  copy-region :
      (d x : Bytes) (i : ℕ)
      → IsRoom c n d
      → IsBlock c.block_size x
      → i < n
      → region c (copy_at (fec_offset c i) x d) i ≡ x
  copy-region d x i h b lt =
      ap (λ t. region c (copy_at t x d) i) (offset c n small i lt)
      ∙ written c n small d x i h.whole (IsBlock-length c.block_size x b) lt

  copy-kept :
      (d x : Bytes) (i j : ℕ)
      → IsRoom c n d
      → IsBlock c.block_size x
      → i < n
      → j < n
      → j ≢ i
      → region c (copy_at (fec_offset c i) x d) j ≡ region c d j
  copy-kept d x i j h b lt less ne =
      ap (λ t. region c (copy_at t x d) j) (offset c n small i lt)
      ∙ kept c n small d x i h.whole (IsBlock-length c.block_size x b) lt j less ne

  -- All the places of a stripe are in range.
  module _ (some_stripes : 0 < c.fec_stripes) where
    pub write_regions-IsRoom :
        (b : ℕ) (ps : List Bytes) (d : Bytes)
        → IsRoom c n d
        → AllBlocks c.block_size ps
        → ((r : ℕ) → r < length ps → b + r * c.fec_stripes < n)
        → IsRoom c n (write_regions c b ps d)
    unfolding write_regions
    write_regions-IsRoom b [] d h a lt = h
    write_regions-IsRoom b (p ∷ ps) d h a lt =
        write_regions-IsRoom (b + c.fec_stripes) ps (copy_at (fec_offset c b) p d)
          (copy-IsRoom d p b h a.0 (omega (arith, lt 0 (omega arith)))) a.1
          (λ r less. omega (arith, lt (suc r) (omega (arith, less))))

    pub write_regions-kept :
        (b : ℕ) (ps : List Bytes) (d : Bytes)
        → IsRoom c n d
        → AllBlocks c.block_size ps
        → ((r : ℕ) → r < length ps → b + r * c.fec_stripes < n)
        → (j : ℕ) → j < n
        → ((r : ℕ) → r < length ps → j ≢ b + r * c.fec_stripes)
        → region c (write_regions c b ps d) j ≡ region c d j
    unfolding write_regions
    write_regions-kept b [] d h a lt j less ne = refl
    write_regions-kept b (p ∷ ps) d h a lt j less ne =
        write_regions-kept (b + c.fec_stripes) ps (copy_at (fec_offset c b) p d)
          (copy-IsRoom d p b h a.0 (omega (arith, lt 0 (omega arith)))) a.1
          (λ r r_less. omega (arith, lt (suc r) (omega (arith, r_less)))) j less
          (λ r r_less e. ne (suc r) (omega (arith, r_less)) (omega (arith, e)))
        ∙ copy-kept d p b j h a.0 (omega (arith, lt 0 (omega arith))) less
            (λ e. ne 0 (omega arith) (omega (arith, e)))

    pub write_regions-nth :
        (b : ℕ) (ps : List Bytes) (d : Bytes)
        → IsRoom c n d
        → AllBlocks c.block_size ps
        → ((r : ℕ) → r < length ps → b + r * c.fec_stripes < n)
        → (r : ℕ) → r < length ps
        → nth ps r ≡ some (region c (write_regions c b ps d) (b + r * c.fec_stripes))
    unfolding write_regions nth
    write_regions-nth b [] d h a lt r less = absurd (omega arith)
    write_regions-nth b (p ∷ ps) d h a lt zero less =
        let place : b < n = omega (arith, lt 0 (omega arith)) in
        ap some (
          sym (copy-region d p b h a.0 place)
          ∙ sym (
              write_regions-kept (b + c.fec_stripes) ps (copy_at (fec_offset c b) p d)
                (copy-IsRoom d p b h a.0 place) a.1
                (λ r r_less. omega (arith, lt (suc r) (omega (arith, r_less)))) b place
                (λ r r_less e. absurd (omega (arith, e, some_stripes))))
          ∙ ap (region c (write_regions c (b + c.fec_stripes) ps (copy_at (fec_offset c b) p d)))
              (omega arith))
    write_regions-nth b (p ∷ ps) d h a lt (suc r) less =
        write_regions-nth (b + c.fec_stripes) ps (copy_at (fec_offset c b) p d)
          (copy-IsRoom d p b h a.0 (omega (arith, lt 0 (omega arith)))) a.1
          (λ k k_less. omega (arith, lt (suc k) (omega (arith, k_less)))) r (omega (arith, less))
        ∙ ap
            (λ t.
              some (
                region c (write_regions c (b + c.fec_stripes) ps (copy_at (fec_offset c b) p d)) t))
            (omega arith)
