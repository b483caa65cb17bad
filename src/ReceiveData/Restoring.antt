-- ===== src/ReceiveData/Restoring.antt =====
-- A stripe that lost one block gets it back from one FEC block.
use mathlib.Core.Option.{some-injective}
use mathlib.Core.List.{head-eq_of_cons-eq, tail-eq_of_cons-eq}
use udpcast_rs.Base.{
  inl, inr, ℕ, zero, suc, ◌+◌, ◌<◌, ◌≤◌, ◌≡◌, refl, sym, ap, ap₂, ◌∙◌, subst, arith, Bool, true,
  false, some, List, [], ◌∷◌, Bytes, length, length-map, map, set, replicate, ltb, Bool-cases,
  Option-cases, if◌then◌else◌,
}
use udpcast_rs.Bitmap.{bit_is_set}
use udpcast_rs.Bitmap.Laws.{bit_is_set-set_bit}
use udpcast_rs.Fec.Blocks.{IsBlock}
use udpcast_rs.Fec.Encoding.{parity, AllBlocks, replicate-IsBlock}
use udpcast_rs.Fec.Erasure.{decode_one}
use udpcast_rs.Fec.Matrix.{nth, fec_decode, decoded}
use udpcast_rs.Fifo.{read_at}
use udpcast_rs.ReceiveData.{Slice}
use udpcast_rs.ReceiveData.Table.{place}
use udpcast_rs.ReceiveData.Recover.{
  Recovery, stripe_of, held, erased_positions, select_fec, load_blocks, marked, put_block,
  store_blocks, decode_stripe, recover_stripe,
}
use udpcast_rs.ReceiveData.Counts.{put_block-slice}
use udpcast_rs.ReceiveData.Content.{write_at-fits}
use udpcast_rs.ReceiveData.Holdings.{Stores, put_block-Stores}

-- What the loading of a block gives.
view : ℕ → (ℕ → Bytes) → Bytes → ℕ → Bytes
view block_size sent bits i = if bit_is_set i bits then sent i else replicate block_size 0

lost_here :
    {b : Bool} {j e : ℕ} {more : List ℕ}
    → b ≡ false
    → e ∷ [] ≡ (if b then more else j ∷ more)
    → e ∷ [] ≡ j ∷ more
lost_here h eq = rw h at eq

-- The test of a block is in range, and the rest of the stripe follows.
erased_step :
    (bits : Bytes) (j i : ℕ) (rest js : List ℕ)
    → length bits ≡ 128
    → erased_positions bits j (i ∷ rest) ≡ some js
    → (more : List ℕ) × (i < 1024)
      × (erased_positions bits (j + 1) rest ≡ some more)
      × (js ≡ (if bit_is_set i bits then more else j ∷ more))
unfolding erased_positions held
erased_step bits j i rest js w e = elim (Option-cases (erased_positions bits (j + 1) rest)) [
  | inl n ↦ ground (arith, e, n)
  | inr (more, m) ↦ (more, ground (arith, e, m, w), m, ground (arith, e, m))
]

module _ (block_size : ℕ) (sent : ℕ → Bytes) (r : Recovery)
    (full : (j : ℕ) → IsBlock block_size (sent j)) (whole : (j : ℕ) → length (sent j) ≡ block_size)
    (h : Stores block_size sent r.slice r.fifo) where
  loaded :
      (j : ℕ) (indices js : List ℕ)
      → erased_positions r.slice.retransmit_map j indices ≡ some js
      → load_blocks block_size r indices
        ≡ some (map (view block_size sent r.slice.retransmit_map) indices)
  unfolding load_blocks view
  loaded j [] js e = refl
  loaded j (i ∷ rest) js e =
      let (more, lt, m, eq) = erased_step r.slice.retransmit_map j i rest js h.tallied.whole e in
      elim (Bool-cases (bit_is_set i r.slice.retransmit_map)) [
        | inl b ↦
            rw
              (
                b,
                ap (λ (n : ℕ). read_at r.fifo (place block_size r.slice r.fifo i) n) (sym (whole i))
                    ∙ h.there i lt b,
                loaded (j + 1) rest more m,
              )
              refl
        | inr b ↦ rw (b, loaded (j + 1) rest more m) refl
      ]

  all_blocks : (indices : List ℕ) → AllBlocks block_size (map sent indices)
  all_blocks [] = tt
  all_blocks (i ∷ rest) = (full i, all_blocks rest)

nth-map :
    (f : ℕ → Bytes) (is : List ℕ) (k i : ℕ) → nth is k ≡ some i → nth (map f is) k ≡ some (f i)
unfolding nth
nth-map f [] k i e = ground (arith, e)
nth-map f (x ∷ is) zero i e = ap (λ t. some (f t)) (some-injective _ _ e)
nth-map f (x ∷ is) (suc k) i e = nth-map f is k i e

module _ (block_size : ℕ) (sent : ℕ → Bytes) (bits : Bytes) (w : length bits ≡ 128) where
  none_lost :
      (j : ℕ) (indices : List ℕ)
      → erased_positions bits j indices ≡ some []
      → map (view block_size sent bits) indices ≡ map sent indices
  unfolding view
  none_lost j [] e = refl
  none_lost j (i ∷ rest) e =
      let (more, lt, m, eq) = erased_step bits j i rest [] w e in
      elim (Bool-cases (bit_is_set i bits)) [
        | inl b ↦ ap₂ ◌∷◌ (rw b refl) (none_lost (j + 1) rest (m ∙ ap some (sym (eq ∙ rw b refl))))
        | inr b ↦ ground (arith, eq, b)
      ]

  -- One block is lost: its position, and what is loaded.
  one_lost :
      (j e : ℕ) (indices : List ℕ)
      → erased_positions bits j indices ≡ some (e ∷ [])
      → (k : ℕ) × (i : ℕ) × (e ≡ j + k)
        × (nth indices k ≡ some i)
        × (i < 1024)
        × (bit_is_set i bits ≡ false)
        × (map (view block_size sent bits) indices
            ≡ set (map sent indices) k (replicate block_size 0))
  unfolding view nth erased_positions
  one_lost j e [] h = ground (arith, h)
  one_lost j e (i ∷ rest) h =
      let (more, lt, m, eq) = erased_step bits j i rest (e ∷ []) w h in
      elim (Bool-cases (bit_is_set i bits)) [
        | inl b ↦
            let (k, g, ek, at, below, gone, same) =
              one_lost (j + 1) e rest (m ∙ ap some (sym (eq ∙ rw b refl))) in
            (suc k, g, omega (arith, ek), at, below, gone, ap₂ ◌∷◌ (rw b refl) same)
        | inr b ↦ (
          0,
          i,
          omega (arith, head-eq_of_cons-eq (lost_here b eq)),
          refl,
          lt,
          b,
          ap₂ ◌∷◌ (rw b refl)
              (none_lost (j + 1) rest (m ∙ ap some (sym (tail-eq_of_cons-eq (lost_here b eq))))),
        )
      ]

IsBlock-length : (n : ℕ) (v : Bytes) → IsBlock n v → length v ≡ n
IsBlock-length zero [] b = refl
IsBlock-length zero (x ∷ v) b = elim b [ ]
IsBlock-length (suc n) [] b = elim b [ ]
IsBlock-length (suc n) (x ∷ v) b = omega (arith, IsBlock-length n v b.1)

module _ (block_size stripe row : ℕ) (sent : ℕ → Bytes) (r : Recovery)
    (full : (j : ℕ) → IsBlock block_size (sent j)) (h : Stores block_size sent r.slice r.fifo)
    (e : ℕ) (nos : List ℕ) (fs : List Bytes)
    (lost : erased_positions r.slice.retransmit_map 0 (stripe_of block_size stripe r.slice)
      ≡ some (e ∷ []))
    (found : select_fec r.slice.fec_stripes stripe r.slice.fec_block_nos r.slice.fec_blocks
      ≡ some (
        row ∷ nos,
        parity block_size row 0 (map sent (stripe_of block_size stripe r.slice)) ∷ fs,
      ))
    (lr : row < 128) (ls : length (stripe_of block_size stripe r.slice) ≤ 128) where
  whole : (j : ℕ) → length (sent j) ≡ block_size
  whole j = IsBlock-length block_size (sent j) (full j)

  indices : List ℕ
  indices = stripe_of block_size stripe r.slice

  -- The block that is lost, and what is loaded for the stripe.
  loss :
      (i : ℕ) × (nth indices e ≡ some i)
      × (i < 1024)
      × (bit_is_set i r.slice.retransmit_map ≡ false)
      × (load_blocks block_size r indices
          ≡ some (set (map sent indices) e (replicate block_size 0)))
  unfolding indices
  loss =
      let (k, i, ek, at, below, gone, same) =
        one_lost block_size sent r.slice.retransmit_map h.tallied.whole 0 e indices lost in
      let ke : k ≡ e = omega (arith, ek) in
      (
        i,
        subst (λ (t : ℕ). nth indices t ≡ some i) ke at,
        below,
        gone,
        loaded block_size sent r full whole h 0 indices (e ∷ []) lost
            ∙ ap some same
            ∙ ap (λ (t : ℕ). some (set (map sent indices) t (replicate block_size 0))) ke,
      )

  decodes :
      fec_decode block_size
        (set (map sent indices) e (replicate block_size 0))
        (parity block_size row 0 (map sent indices) ∷ [])
        (row ∷ [])
        (e ∷ [])
      ≡ some (decoded (map sent indices))
  unfolding indices
  decodes =
      decode_one block_size row e (map sent indices) (sent loss.0) (replicate block_size 0) lr
        (omega (arith, ls, length-map indices sent))
        (all_blocks block_size sent r full whole h indices) (nth-map sent indices e loss.0 loss.1)
        (replicate-IsBlock block_size)

  stores :
      (r' : Recovery) × (put_block block_size r loss.0 (sent loss.0) ≡ some r')
      × (store_blocks block_size indices (map sent indices) (e ∷ []) r ≡ some r')
  unfolding store_blocks put_block
  stores =
      let (g, w) =
        write_at-fits block_size r.slice r.fifo h.room loss.0 (sent loss.0) loss.2
          (omega (arith, whole loss.0)) in
      let r' : Recovery = record { slice = marked loss.0 r.slice; fifo = g } in
      let put : put_block block_size r loss.0 (sent loss.0) ≡ some r' = rw w refl in
      (r', put, rw (loss.1, nth-map sent indices e loss.0 loss.1, w) refl)

  enough : ltb (length (parity block_size row 0 (map sent indices) ∷ fs)) 1 ≡ false
  enough = ground arith

  recovers : recover_stripe block_size stripe r ≡ some stores.0
  unfolding recover_stripe decode_stripe indices
  recovers = rw (lost, found, enough, loss.4, decodes) stores.2

  -- Take a slice of full blocks whose blocks that are there are in the ring as they were sent, and
  -- a stripe of at most 128 blocks that lacks exactly one. If the first FEC block kept for the
  -- stripe, with a number below 128, is the sum of the stripe's blocks as they were sent, each
  -- times the coefficient of its place, then the recovery succeeds, the lost block is marked, and
  -- every block that is marked is in the ring as it was sent.
  pub recover_stripe-restores :
      (r' : Recovery) × (i : ℕ) × (recover_stripe block_size stripe r ≡ some r')
      × Stores block_size sent r'.slice r'.fifo
      × (nth (stripe_of block_size stripe r.slice) e ≡ some i)
      × (bit_is_set i r.slice.retransmit_map ≡ false)
      × (bit_is_set i r'.slice.retransmit_map ≡ true)
  unfolding indices marked
  recover_stripe-restores = (
    stores.0,
    loss.0,
    recovers,
    put_block-Stores block_size loss.0 sent r stores.0 (λ j. omega (arith, whole j)) loss.2 loss.3 h
        stores.1,
    loss.1,
    loss.3,
    ap (λ (s : Slice). bit_is_set loss.0 s.retransmit_map)
          (put_block-slice block_size loss.0 (sent loss.0) r stores.0 stores.1)
        ∙ now_there,
  )
    where
      now_there : bit_is_set loss.0 (marked loss.0 r.slice).retransmit_map ≡ true
      now_there = ground (
        arith,
        bit_is_set-set_bit loss.0 loss.0 r.slice.retransmit_map h.tallied.bytes
            (omega (arith, loss.2, h.tallied.whole)),
      )
