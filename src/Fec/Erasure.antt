-- ===== src/Fec/Erasure.antt =====
-- One lost block comes back: `fec_encode`, then `fec_decode` with one of the FEC blocks.
use mathlib.Core.Option.{some-injective}
use udpcast_rs.Base.{
  subst, ℕ, zero, suc, ◌+◌, ◌<◌, ◌≤◌, ◌≡◌, ◌≢◌, refl, sym, ap, ◌∙◌, arith, List, [], ◌∷◌, some,
  Bytes, length, set, replicate, bit_xor,
}
use udpcast_rs.Fec.{inverse, fec_encode}
use udpcast_rs.Fec.Field.{inverse-lt, inverse_nonzero, gf_mul-inverse, gf_mul_comm}
use udpcast_rs.Fec.Blocks.{
  IsBlock, scale, plus, scale-IsBlock, plus_comm, mul_eq, scale-scale, one-scale,
}
use udpcast_rs.Fec.Coefficients.{
  coefficient, index_range, matrix_index, coefficient-lt, coefficient_nonzero,
}
use udpcast_rs.Fec.Encoding.{
  parity, parities, AllBlocks, plus_zeros, replicate-IsBlock, parity-IsBlock, fec_encode-parities,
}
use udpcast_rs.Fec.Matrix.{
  nth, inverse_of, reduce, put, fill_cols, fill_rows, add_cols, restore, decoded, fec_decode,
}
use udpcast_rs.Fec.Reduction.{reduce_before, invert_one}

zeros_plus : (n : ℕ) (v : Bytes) → IsBlock n v → plus (replicate n 0) v ≡ v
zeros_plus n v k = plus_comm (replicate n 0) v ∙ plus_zeros n v k

nth-AllBlocks :
    (n i : ℕ) (ds : List Bytes) (b : Bytes)
    → AllBlocks n ds
    → nth ds i ≡ some b
    → IsBlock n b × (i < length ds)
unfolding nth
nth-AllBlocks n i [] b k h = ground (arith, h)
nth-AllBlocks n zero (d ∷ ds) b k h = (subst (IsBlock n) (some-injective _ _ h) k.0, omega arith)
nth-AllBlocks n (suc i) (d ∷ ds) b k h =
    let (kb, l) = nth-AllBlocks n i ds b k.1 h in (kb, omega (arith, l))

nth-set : (ds : List Bytes) (i : ℕ) (v : Bytes) → i < length ds → nth (set ds i v) i ≡ some v
unfolding nth
nth-set [] i v l = absurd (omega arith)
nth-set (d ∷ ds) zero v l = refl
nth-set (d ∷ ds) (suc i) v l = nth-set ds i v (omega arith)

set_back : (ds : List Bytes) (i : ℕ) (v b : Bytes) → nth ds i ≡ some b → set (set ds i v) i b ≡ ds
unfolding nth
set_back [] i v b h = refl
set_back (d ∷ ds) zero v b h = ap (λ t. t ∷ ds) (sym (some-injective _ _ h))
set_back (d ∷ ds) (suc i) v b h = ap (λ t. d ∷ t) (set_back ds i v b h)

module _ (n row e : ℕ) (ds : List Bytes) (b lost : Bytes) (r : row < 128) (l : length ds ≤ 128)
    (k : AllBlocks n ds) (h : nth ds e ≡ some b) (kl : IsBlock n lost) where
  place : IsBlock n b × (e < length ds)
  place = nth-AllBlocks n e ds b k h

  e-lt : e < 128
  e-lt = omega (arith, place.1)

  c : ℕ
  c = coefficient row e

  reduced :
      reduce n (row ∷ []) (e ∷ []) 0 0 (set ds e lost) (parity n row 0 ds ∷ [])
      ≡ some (scale c b ∷ [])
  unfolding c
  reduced =
      ap (λ t. reduce n (row ∷ []) (e ∷ []) 0 0 (set ds e lost) (t ∷ []))
        (sym (zeros_plus n (parity n row 0 ds) (parity-IsBlock n row 0 ds r (omega (arith, l)) k)))
      ∙ reduce_before n row e r 0 e ds b lost (replicate n 0) (omega arith) h (omega arith) k
          (replicate-IsBlock n)
      ∙ ap (λ t. some (t ∷ []))
          (zeros_plus n (scale c b) (scale-IsBlock n c b (coefficient-lt row e r e-lt) place.0))

  lookup : inverse_of (bit_xor (128 + row) e) ≡ some c
  unfolding c
  lookup = rw (matrix_index row e r e-lt) (ground (arith, index_range row e r e-lt))

  matrix : fill_rows 1 (e ∷ []) 0 (row ∷ []) (0 ∷ []) ≡ some (c ∷ [])
  unfolding fill_rows fill_cols put
  matrix = rw lookup refl

  c-lt : c < 256
  unfolding c
  c-lt = coefficient-lt row e r e-lt

  c-nonzero : c ≢ 0
  unfolding c
  c-nonzero = coefficient_nonzero row e r e-lt

  undone : scale (inverse c) (scale c b) ≡ b
  undone =
      scale-scale n (inverse c) c b (inverse-lt c c-lt c-nonzero) c-lt place.0
      ∙ ap (λ t. scale t b)
          (gf_mul_comm (inverse c) c (inverse-lt c c-lt c-nonzero) c-lt
            ∙ gf_mul-inverse c c-lt c-nonzero)
      ∙ one-scale n b place.0

  restored : restore n (inverse c ∷ []) (scale c b ∷ []) 0 (e ∷ []) (set ds e lost) ≡ some ds
  unfolding restore add_cols nth
  restored =
      rw
        (
          nth-set ds e lost place.1,
          mul_eq n (inverse c) lost (scale c b) (inverse_nonzero c c-lt c-nonzero) kl
              (scale-IsBlock n c b c-lt place.0),
        )
        (ap (λ t. some (set (set ds e lost) e t)) undone ∙ ap some (set_back ds e lost b h))

  pub decode_one :
      fec_decode n (set ds e lost) (parity n row 0 ds ∷ []) (row ∷ []) (e ∷ []) ≡ some (decoded ds)
  unfolding fec_decode
  decode_one = rw (reduced, matrix, invert_one c c-lt c-nonzero, restored) refl

nth-parities :
    (n : ℕ) (ds : List Bytes) (rounds row i : ℕ) (p : Bytes)
    → nth (parities n ds rounds row) i ≡ some p
    → (i < rounds) × (p ≡ parity n (row + i) 0 ds)
unfolding nth
nth-parities n ds zero row i p h = ground (arith, h)
nth-parities n ds (suc k) row zero p h =
    (omega arith, sym (some-injective _ _ h) ∙ ap (λ (t : ℕ). parity n t 0 ds) (omega arith))
nth-parities n ds (suc k) row (suc i) p h =
    let (l, e) = nth-parities n ds k (row + 1) i p h in
    (omega (arith, l), e ∙ ap (λ (t : ℕ). parity n t 0 ds) (omega arith))

-- Take up to 128 data blocks, at least one, and room for up to 128 FEC blocks, all of `n` bytes.
-- When `fec_encode` has filled the FEC blocks, any one of them and its number restore any one data
-- block that was overwritten: `fec_decode` succeeds and leaves all the data blocks as they were.
pub fec_decode-fec_encode :
    (n row e : ℕ) (d : Bytes) (ds xs ps : List Bytes) (b p lost : Bytes)
    → length (d ∷ ds) ≤ 128
    → length xs ≤ 128
    → AllBlocks n (d ∷ ds)
    → AllBlocks n xs
    → fec_encode n (d ∷ ds) xs ≡ some ps
    → nth ps row ≡ some p
    → nth (d ∷ ds) e ≡ some b
    → IsBlock n lost
    → fec_decode n (set (d ∷ ds) e lost) (p ∷ []) (row ∷ []) (e ∷ []) ≡ some (decoded (d ∷ ds))
fec_decode-fec_encode n row e d ds xs ps b p lost l m k a encoded at h kl =
    let same_rows : ps ≡ parities n (d ∷ ds) (length xs) 0 =
      some-injective _ _ (sym encoded ∙ fec_encode-parities n d ds xs l m k a) in
    let (lt, eq) =
      nth-parities n (d ∷ ds) (length xs) 0 row p (subst (λ t. nth t row ≡ some p) same_rows at) in
    ap (λ t. fec_decode n (set (d ∷ ds) e lost) (t ∷ []) (row ∷ []) (e ∷ []))
      (eq ∙ ap (λ (t : ℕ). parity n t 0 (d ∷ ds)) (omega arith))
    ∙ decode_one n row e (d ∷ ds) b lost (omega (arith, lt, m)) l k h kl
