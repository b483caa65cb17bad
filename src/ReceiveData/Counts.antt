-- ===== src/ReceiveData/Counts.antt =====
-- The receiver's counter of data blocks counts its map: every block is counted once, received or
-- recovered.
use mathlib.Core.Option.{some-injective}
use udpcast_rs.Base.{
  take, ◌||◌, ℕ, zero, suc, ◌+◌, ◌<◌, ◌≡◌, ◌≢◌, refl, sym, ap, ◌∙◌, subst, arith, false, some, List,
  [], ◌∷◌, Bytes, length, ltb, ◌==◌, Bool-cases, Option-cases, inl, inr,
}
use udpcast_rs.Bitmap.{bit_is_set}
use udpcast_rs.Bitmap.Laws.{bit_is_set-set_bit}
use udpcast_rs.Bitmap.Sizes.{IsCount, add-IsCount}
use udpcast_rs.Fec.Matrix.{nth, fec_decode, undecodable, decoded}
use udpcast_rs.ReceiveData.{Slice}
use udpcast_rs.ReceiveData.Stripes.{
  AreDistinct, stripe_indices-AreDistinct, AllMissing, erased_positions-AllMissing,
}
use udpcast_rs.ReceiveData.Recover.{
  Recovery, erased_positions, marked, put_block, store_blocks, load_blocks, decode_stripe,
  select_fec, stripe_of, recover_stripe, recover_stripes,
}

abbrev pub IsTallied : Slice → Type 0
IsTallied s = IsCount s.retransmit_map s.data_blocks_transferred

pub marked-IsTallied :
    (s : Slice) (i : ℕ)
    → IsTallied s
    → i < 1024
    → bit_is_set i s.retransmit_map ≡ false
    → IsTallied (marked i s)
unfolding marked
marked-IsTallied s i c lt new = add-IsCount s.retransmit_map s.data_blocks_transferred i c lt new

pub put_block-slice :
    (block_size i : ℕ) (b : Bytes) (r r' : Recovery)
    → put_block block_size r i b ≡ some r'
    → r'.slice ≡ marked i r.slice
unfolding put_block
put_block-slice block_size i b r r' e = ground (arith, e)

-- What stays as it is in a slice while blocks come in.
pub record Same (s s' : Slice) : Type 0 where
  pub state : s'.state ≡ s.state
  pub base : s'.base ≡ s.base
  pub slice_no : s'.slice_no ≡ s.slice_no
  pub bytes : s'.bytes ≡ s.bytes
  pub stripes : s'.fec_stripes ≡ s.fec_stripes

same : (s : Slice) → Same s s
same s = record { state = refl; base = refl; slice_no = refl; bytes = refl; stripes = refl }

marked-Same : (s : Slice) (i : ℕ) → Same s (marked i s)
unfolding marked
marked-Same s i = record {
  state = refl;
  base = refl;
  slice_no = refl;
  bytes = refl;
  stripes = refl;
}

then : (a b c : Slice) → Same a b → Same b c → Same a c
then a b c p q = record {
  state = q.state ∙ p.state;
  base = q.base ∙ p.base;
  slice_no = q.slice_no ∙ p.slice_no;
  bytes = q.bytes ∙ p.bytes;
  stripes = q.stripes ∙ p.stripes;
}

-- Marking one block leaves the others of the list missing.
still_missing :
    (s : Slice) (indices : List ℕ) (i j lo : ℕ) (js : List ℕ)
    → IsTallied s
    → AreDistinct indices
    → nth indices j ≡ some i
    → i < 1024
    → j < lo
    → AllMissing s.retransmit_map indices lo js
    → AllMissing (marked i s).retransmit_map indices lo js
unfolding AllMissing AreDistinct marked
still_missing s indices i j lo [] c d at lt le m = tt
still_missing s indices i j lo (k ∷ ks) c d at lt le (a, b, m) = (
  a,
  λ i' h. (
    (b i' h).0,
    ground (
      arith,
      bit_is_set-set_bit i i' s.retransmit_map c.bytes (omega (arith, lt, c.whole)),
      (b i' h).1,
      other i' h,
    ),
  ),
  still_missing s indices i j (suc k) ks c d at lt (omega (arith, a, le)) m,
)
  where
    other : (i' : ℕ) → nth indices k ≡ some i' → i ≢ i'
    other i' h e = absurd (omega (arith, d j k i' (at ∙ ap some e) h, a, le))

-- The counter is right afterwards, and the slice is the same one.
abbrev pub Kept : Recovery → Recovery → Type 0
Kept r r' = IsTallied r'.slice × Same r.slice r'.slice

store_blocks-IsTallied :
    (block_size : ℕ) (indices : List ℕ) (blocks : List Bytes) (lo : ℕ) (js : List ℕ)
    (r r' : Recovery)
    → AreDistinct indices
    → IsTallied r.slice
    → AllMissing r.slice.retransmit_map indices lo js
    → store_blocks block_size indices blocks js r ≡ some r'
    → Kept r r'
unfolding store_blocks AllMissing
store_blocks-IsTallied block_size indices blocks lo [] r r' d c m e =
    subst (λ t. Kept r t) (some-injective _ _ e) (c, same r.slice)
store_blocks-IsTallied block_size indices blocks lo (j ∷ js) r r' d c (a, b, m) e =
    elim (Option-cases (nth indices j)) [
      | inl n ↦ ground (arith, e, n)
      | inr (i, at) ↦ elim (Option-cases (nth blocks j)) [
        | inl n ↦ ground (arith, e, at, n)
        | inr (x, bx) ↦ elim (Option-cases (put_block block_size r i x)) [
          | inl n ↦ ground (arith, e, at, bx, n)
          | inr (q, put) ↦
              let kept : IsTallied q.slice
                  × Same r.slice q.slice
                  × AllMissing q.slice.retransmit_map indices (suc j) js =
                subst
                  (λ t.
                    IsTallied t × Same r.slice t × AllMissing t.retransmit_map indices (suc j) js)
                  (sym (put_block-slice block_size i x r q put))
                  (
                    marked-IsTallied r.slice i c (b i at).0 (b i at).1,
                    marked-Same r.slice i,
                    still_missing r.slice indices i j (suc j) js c d at (b i at).0 (omega arith) m,
                  ) in
              let (c', s') =
                store_blocks-IsTallied block_size indices blocks (suc j) js q r' d kept.0 kept.2
                  (ground (arith, e, at, bx, put)) in
              (c', then r.slice q.slice r'.slice kept.1 s')
        ]
      ]
    ]

decode_stripe-IsTallied :
    (block_size : ℕ) (indices js fec_nos : List ℕ) (fec_sel : List Bytes) (r r' : Recovery)
    → AreDistinct indices
    → IsTallied r.slice
    → AllMissing r.slice.retransmit_map indices 0 js
    → decode_stripe block_size indices js fec_nos fec_sel r ≡ some r'
    → Kept r r'
unfolding decode_stripe
decode_stripe-IsTallied block_size indices js fec_nos fec_sel r r' d c m e =
    elim (Option-cases (load_blocks block_size r indices)) [
      | inl n ↦ ground (arith, e, n)
      | inr (blocks, l) ↦
          elim (Option-cases (
            fec_decode block_size blocks (take (length js) fec_sel) (take (length js) fec_nos)
              js)) [
                | inl n ↦ ground (arith, e, l, n)
                | inr (undecodable, o) ↦
                    subst (λ t. Kept r t) (some-injective _ _ (rw (l, o) at e)) (c, same r.slice)
                | inr (decoded ds, o) ↦
                    store_blocks-IsTallied block_size indices ds 0 js r r' d c m (rw (l, o) at e)
              ]
    ]

recover_stripe-IsTallied :
    (block_size stripe : ℕ) (r r' : Recovery)
    → 0 < r.slice.fec_stripes
    → IsTallied r.slice
    → recover_stripe block_size stripe r ≡ some r'
    → Kept r r'
unfolding recover_stripe
recover_stripe-IsTallied block_size stripe r r' p c e =
    elim (Option-cases
      (erased_positions r.slice.retransmit_map 0 (stripe_of block_size stripe r.slice))) [
        | inl n ↦ ground (arith, e, n)
        | inr (js, m) ↦
            elim (Option-cases
              (select_fec r.slice.fec_stripes stripe r.slice.fec_block_nos r.slice.fec_blocks)) [
                | inl n ↦ ground (arith, e, m, n)
                | inr (f, sel) ↦
                    elim (Bool-cases (length js == 0 || ltb (length f.1) (length js))) [
                      | inl t ↦
                          subst (Kept r) (some-injective _ _ (rw (m, sel, t) at e))
                            (c, same r.slice)
                      | inr t ↦
                          decode_stripe-IsTallied block_size (stripe_of block_size stripe r.slice)
                            js f.0 f.1 r r'
                            (unfold stripe_of in
                              stripe_indices-AreDistinct _ r.slice.fec_stripes stripe _ p)
                            c
                            (erased_positions-AllMissing r.slice.retransmit_map
                              (stripe_of block_size stripe r.slice) 0
                              (stripe_of block_size stripe r.slice) js c.whole
                              (λ k. ap (nth (stripe_of block_size stripe r.slice)) (omega arith)) m)
                            (rw (m, sel, t) at e)
                    ]
              ]
      ]

pub recover_stripes-IsTallied :
    (block_size rounds stripe : ℕ) (r r' : Recovery)
    → 0 < r.slice.fec_stripes
    → IsTallied r.slice
    → recover_stripes block_size rounds stripe r ≡ some r'
    → Kept r r'
unfolding recover_stripes
recover_stripes-IsTallied block_size zero stripe r r' p c e =
    subst (Kept r) (some-injective _ _ e) (c, same r.slice)
recover_stripes-IsTallied block_size (suc n) stripe r r' p c e =
    elim (Option-cases (recover_stripe block_size stripe r)) [
      | inl h ↦ ground (arith, e, h)
      | inr (q, h) ↦
          let (cq, sq) = recover_stripe-IsTallied block_size stripe r q p c h in
          let (c', s') =
            recover_stripes-IsTallied block_size n (stripe + 1) q r' (omega (arith, sq.stripes, p))
              cq (ground (arith, e, h)) in
          (c', then r.slice q.slice r'.slice sq s')
    ]
