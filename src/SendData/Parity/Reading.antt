-- ===== src/SendData/Parity/Reading.antt =====
-- What the encoder reads of a slice in a valid ring: blocks of bytes, the last one filled up.
use native.Mathlib.Nat.{mod-lt}
use udpcast_rs.Base.{
  ℕ, zero, suc, ◌+◌, ◌-◌, ◌*◌, ◌%◌, ◌<◌, ◌≤◌, ◌≡◌, refl, sym, subst, arith, ◌++◌, some, List, [],
  ◌∷◌, Bytes, length, replicate, get_or, ltb, inl, inr, Bool-cases, ◌&&◌, ◌==◌,
}
use udpcast_rs.Fec.Blocks.{IsBlock}
use udpcast_rs.Fec.Encoding.{AllBlocks, replicate-IsBlock}
use udpcast_rs.Fec.Matrix.{nth}
use udpcast_rs.Fifo.{Fifo}
use udpcast_rs.Fifo.Ring.{IsValid}
use udpcast_rs.Fifo.Window.{window, length-window, window_lem}
use udpcast_rs.ReceiveData.Recover.{stripe_indices}
use udpcast_rs.SendData.{Slice}
use udpcast_rs.SendData.Answers.{nr_blocks}
use udpcast_rs.SendData.Blocks.Packets.{append_ring_lem}
use udpcast_rs.SendData.Parity.{FecConfig, bytes_round, block_place, encoded_block, encoded_blocks}
use udpcast_rs.SendData.Parity.Encoded.{data_of, IsStripe}

bytes-IsBlock :
    (n : ℕ) (xs : Bytes) → length xs ≡ n → ((k : ℕ) → k < n → get_or xs k 0 < 256) → IsBlock n xs
bytes-IsBlock zero [] l h = tt
bytes-IsBlock zero (x ∷ xs) l h = absurd (omega arith)
bytes-IsBlock (suc n) [] l h = absurd (omega arith)
bytes-IsBlock (suc n) (x ∷ xs) l h =
    (h 0 (omega arith), bytes-IsBlock n xs (omega arith) (λ k lt. h (suc k) (omega arith)))

append-IsBlock :
    (n m : ℕ) (xs ys : Bytes) → IsBlock n xs → IsBlock m ys → IsBlock (n + m) (xs ++ ys)
append-IsBlock zero m [] ys a b =
    let e : m ≡ zero + m = omega arith in subst (λ t. IsBlock t ys) e b
append-IsBlock zero m (x ∷ xs) ys a b = elim a [ ]
append-IsBlock (suc n) m [] ys a b = elim a [ ]
append-IsBlock (suc n) m (x ∷ xs) ys a b =
    let e : suc (n + m) ≡ suc n + m = omega arith in
    subst (λ t. IsBlock t (x ∷ xs ++ ys)) e (a.0, append-IsBlock n m xs ys a.1 b)

nth-get_or : (xs : Bytes) (i : ℕ) → i < length xs → nth xs i ≡ some (get_or xs i 0)
unfolding nth
nth-get_or [] i lt = absurd (omega arith)
nth-get_or (x ∷ xs) zero lt = refl
nth-get_or (x ∷ xs) (suc i) lt = nth-get_or xs i (omega arith)

-- A stripe has at most `k` blocks when `k` steps reach the end.
length-stripe_indices :
    (n stripes i blocks k : ℕ)
    → blocks ≤ i + k * stripes
    → length (stripe_indices n stripes i blocks) ≤ k
unfolding stripe_indices
length-stripe_indices zero stripes i blocks k le = omega arith
length-stripe_indices (suc n) stripes i blocks zero le = ground (arith, le)
length-stripe_indices (suc n) stripes i blocks (suc k) le =
    ground (arith, length-stripe_indices n stripes (i + stripes) blocks k (omega (arith, le)))

some-stripe_indices :
    (n stripes i blocks : ℕ) → i < blocks → 0 < n → 0 < length (stripe_indices n stripes i blocks)
unfolding stripe_indices
some-stripe_indices zero stripes i blocks lt p = absurd (omega arith)
some-stripe_indices (suc n) stripes i blocks lt p = ground (arith, lt)

-- The ring holds bytes, and is at least a block.
pub record IsSource (block_size : ℕ) (f : Fifo) : Type 0 where
  pub valid : IsValid f
  pub some_bytes : 0 < block_size
  pub holds_block : block_size ≤ f.data_buf_size
  pub bytes : (k : ℕ) → get_or f.buffer k 0 < 256

module _ (block_size : ℕ) (f : Fifo) (h : IsSource block_size f) where
  bytes_round_lem : (n start : ℕ) → (b : Bytes) × (bytes_round f n start ≡ some b) × IsBlock n b
  unfolding bytes_round
  bytes_round_lem zero start = ([], refl, tt)
  bytes_round_lem (suc n) start =
      let (b, read, is) = bytes_round_lem n (start + 1) in
      let at : start % f.data_buf_size < length f.buffer = omega (
        arith,
        h.valid.whole,
        h.some_bytes,
        h.holds_block,
        mod-lt start {m = f.data_buf_size} (omega (arith, h.some_bytes, h.holds_block)),
      ) in
      (
        _ ∷ b,
        rw (nth-get_or f.buffer (start % f.data_buf_size) at, read) refl,
        (h.bytes (start % f.data_buf_size), is),
      )

  encoded_block_lem :
      (s : Slice) (i : ℕ)
      → (b : Bytes) × (encoded_block block_size f s i ≡ some b) × IsBlock block_size b
  unfolding encoded_block
  encoded_block_lem s i =
      elim (Bool-cases (i + 1 == nr_blocks s.bytes block_size && ltb 0 (s.bytes % block_size))) [
        | inl e ↦
            let filled : s.bytes % block_size + (block_size - s.bytes % block_size) ≡ block_size =
              omega (arith, mod-lt s.bytes {m = block_size} h.some_bytes) in
            let (b, read, is) =
              bytes_round_lem (s.bytes % block_size) (block_place block_size f s i) in
            (
              b ++ replicate (block_size - s.bytes % block_size) 0,
              rw (e, read) refl,
              subst (λ t. IsBlock t (b ++ replicate (block_size - s.bytes % block_size) 0)) filled
                  (append-IsBlock _ _ b _ is
                    (replicate-IsBlock (block_size - s.bytes % block_size))),
            )
        | inr e ↦
            let inside : block_place block_size f s i < f.data_buf_size =
              mod-lt _ {m = f.data_buf_size} (omega (arith, h.some_bytes, h.holds_block)) in
            (
              window f (block_place block_size f s i) block_size,
              rw
                  (
                    e,
                    append_ring_lem [] f (block_place block_size f s i) block_size h.valid inside
                        h.holds_block,
                  )
                  refl,
              bytes-IsBlock block_size _ (length-window f h.valid _ block_size inside h.holds_block)
                  (λ k lt.
                    subst (λ t. t < 256)
                      (sym (window_lem f h.valid _ block_size inside h.holds_block k lt))
                      (h.bytes _)),
            )
      ]

  encoded_blocks_lem :
      (s : Slice) (is : List ℕ)
      → (ds : List Bytes) × (encoded_blocks block_size f s is ≡ some ds)
        × (length ds ≡ length is)
        × AllBlocks block_size ds
  unfolding encoded_blocks
  encoded_blocks_lem s [] = ([], refl, refl, tt)
  encoded_blocks_lem s (i ∷ is) =
      let (b, read, block) = encoded_block_lem s i in
      let (ds, rest, l, all) = encoded_blocks_lem s is in
      (b ∷ ds, rw (read, rest) refl, omega (arith, l), (block, all))

-- A stripe of a slice that has a block for each stripe, and at most 128 of them.
pub data_of_lem :
    (c : FecConfig) (f : Fifo) (s : Slice)
    → IsSource c.block_size f
    → c.fec_stripes ≤ nr_blocks s.bytes c.block_size
    → nr_blocks s.bytes c.block_size ≤ 128 * c.fec_stripes
    → (a : ℕ) → a < c.fec_stripes
    → (ds : List Bytes) × (data_of c f s a ≡ some ds) × IsStripe c.block_size ds
data_of_lem c f s h enough few a la =
    let n = nr_blocks s.bytes c.block_size in
    let (ds, read, l, all) =
      encoded_blocks_lem c.block_size f h s (stripe_indices n c.fec_stripes a n) in
    (
      ds,
      read,
      record {
        some_blocks = omega (
          arith,
          l,
          some-stripe_indices n c.fec_stripes a n (omega (arith, la, enough))
              (omega (arith, la, enough)),
        );
        few = omega (arith, l, length-stripe_indices n c.fec_stripes a n 128 (omega (arith, few)));
        bytes = all;
      },
    )
