-- ===== src/ReceiveData/Content.antt =====
-- A block that is put in the ring stays there while other blocks of the slice come in.
use native.Mathlib.Nat.{mod-lt, mod-add-mod, add-mod_right}
use mathlib.Core.Option.{some-injective}
use udpcast_rs.Base.{
  ◌⊎◌, ℕ, zero, suc, ◌+◌, ◌-◌, ◌*◌, ◌%◌, ◌^◌, ◌<◌, ◌≤◌, ◌≡◌, ◌≢◌, sym, ap, ◌∙◌, subst, arith, some,
  Bytes, length, ltb, inl, inr, dec_lt, usize_add, usize_mul, get_or, get_or_ext, if◌then◌else◌,
  ℕ_discrete,
}
use udpcast_rs.Fifo.{Fifo, write_at, read_at}
use udpcast_rs.Fifo.Ring.{IsValid}
use udpcast_rs.Fifo.RoundTrip.{write_at_lem, read_at_lem, read_at-write_at}
use udpcast_rs.ReceiveData.{Slice}
use udpcast_rs.ReceiveData.Table.{place}

-- The ring holds a slice of 1024 blocks, and no sum of indices wraps around.
pub record HasRoom (block_size : ℕ) (f : Fifo) (base : ℕ) : Type 0 where
  pub valid : IsValid f
  pub some_bytes : 0 < block_size
  pub slice_fits : 1024 * block_size ≤ f.data_buf_size
  pub small : f.data_buf_size < 2 ^ 63
  pub inside : base < f.data_buf_size

-- Blocks in order do not overlap.
pub gap : (block_size i j : ℕ) → i < j → i * block_size + block_size ≤ j * block_size
gap block_size i zero lt = absurd (omega arith)
gap block_size i (suc j) lt = elim (ℕ_discrete i j) [
  | yes e ↦ omega (arith, ap (λ (t : ℕ). t * block_size) e)
  | no ne ↦ omega (arith, gap block_size i j (omega (arith, lt, ne)))
]

-- Two ways to the same index of the ring.
same_index :
    (size base a b k l : ℕ)
    → (a + k ≡ b + l) ⊎ (a + k ≡ size + b + l)
    → ((base + a) % size + k) % size ≡ ((base + b) % size + l) % size
same_index size base a b k l e =
    mod-add-mod (base + a) size k ∙ meet e ∙ sym (mod-add-mod (base + b) size l)
  where
    meet : (a + k ≡ b + l) ⊎ (a + k ≡ size + b + l) → (base + a + k) % size ≡ (base + b + l) % size
    meet (inl e) = ap (λ (t : ℕ). t % size) (omega (arith, e))
    meet (inr e) = ap (λ (t : ℕ). t % size) (omega (arith, e)) ∙ add-mod_right (base + b + l) size

module _ (block_size : ℕ) (s : Slice) (f : Fifo) (h : HasRoom block_size f s.base) where
  pub place-eq :
      (i : ℕ) → i < 1024 → place block_size s f i ≡ (s.base + i * block_size) % f.data_buf_size
  place-eq i lt =
      ap (λ (t : ℕ). t % f.data_buf_size)
        (omega (arith, gap block_size i 1024 lt, h.slice_fits, h.small, h.inside))

  pub place-lt : (i : ℕ) → i < 1024 → place block_size s f i < f.data_buf_size
  place-lt i lt = omega (
    arith,
    mod-lt (usize_add s.base (usize_mul i block_size)) {m = f.data_buf_size}
        (omega (arith, h.inside)),
  )

  places :
      (i j k l : ℕ)
      → i < 1024
      → j < 1024
      → (i * block_size + k ≡ j * block_size + l)
        ⊎ (i * block_size + k ≡ f.data_buf_size + j * block_size + l)
      → (place block_size s f i + k) % f.data_buf_size
        ≡ (place block_size s f j + l) % f.data_buf_size
  places i j k l li lj e =
      ap (λ (t : ℕ). (t + k) % f.data_buf_size) (place-eq i li)
      ∙ same_index f.data_buf_size s.base (i * block_size) (j * block_size) k l e
      ∙ ap (λ (t : ℕ). (t + l) % f.data_buf_size) (sym (place-eq j lj))

  -- From one block's place, another block's bytes are at least a block away.
  apart :
      (i j l : ℕ)
      → i < 1024
      → j < 1024
      → i ≢ j
      → l < block_size
      → (k : ℕ) × (k < f.data_buf_size)
        × (block_size ≤ k)
        × ((place block_size s f i + k) % f.data_buf_size
            ≡ (place block_size s f j + l) % f.data_buf_size)
  apart i j l li lj ne ll = elim (dec_lt i j) [
    | yes p ↦ (
      j * block_size + l - i * block_size,
      omega (arith, gap block_size i j p, gap block_size j 1024 lj, h.slice_fits, ll),
      omega (arith, gap block_size i j p),
      places i j _ l li lj (inl (omega (arith, gap block_size i j p))),
    )
    | no p ↦ (
      f.data_buf_size + j * block_size + l - i * block_size,
      omega (
        arith,
        gap block_size j i (omega (arith, p, ne)),
        gap block_size i 1024 li,
        h.slice_fits,
        ll,
      ),
      omega (
        arith,
        gap block_size j i (omega (arith, p, ne)),
        gap block_size i 1024 li,
        h.slice_fits,
      ),
      places i j _ l li lj (inr (omega (arith, gap block_size i 1024 li, h.slice_fits))),
    )
  ]

  module _ (i : ℕ) (b : Bytes) (li : i < 1024) (lb : length b ≤ block_size) where
    after_write :
        (c : Bytes) × (write_at f (place block_size s f i) b ≡ some (record f { buffer = c }))
        × (length c ≡ f.data_buf_size)
        × ((k : ℕ)
            → k < f.data_buf_size
            → get_or c ((place block_size s f i + k) % f.data_buf_size) 0 ≡ (
                if ltb k (length b)
                then get_or b k 0
                else get_or f.buffer ((place block_size s f i + k) % f.data_buf_size) 0))
    after_write =
        write_at_lem f (place block_size s f i) b h.valid (place-lt i li)
          (omega (arith, lb, h.slice_fits))

    written_ring : Fifo
    written_ring = record f { buffer = after_write.0 }

    written_ring-IsValid : IsValid written_ring
    unfolding written_ring
    written_ring-IsValid = record { whole = after_write.2; small = h.valid.small }

    -- A byte of another block is the one that was there.
    untouched :
        (j l : ℕ)
        → j < 1024
        → i ≢ j
        → l < block_size
        → get_or after_write.0 ((place block_size s f j + l) % f.data_buf_size) 0
          ≡ get_or f.buffer ((place block_size s f j + l) % f.data_buf_size) 0
    untouched j l lj ne ll =
        let (k, lk, far, same) = apart i j l li lj ne ll in
        subst (λ (t : ℕ). get_or after_write.0 t 0 ≡ get_or f.buffer t 0) same
          (ground (arith, after_write.3 k lk, far, lb))

    same_reading :
        (j n : ℕ)
        → j < 1024
        → i ≢ j
        → n ≤ block_size
        → read_at written_ring (place block_size s f j) n ≡ read_at f (place block_size s f j) n
    unfolding written_ring
    same_reading j n lj ne ln =
        let (x, ex, lx, ax) =
          read_at_lem f (place block_size s f j) n h.valid (place-lt j lj)
            (omega (arith, ln, gap block_size 0 1024 (omega arith), h.slice_fits)) in
        let (y, ey, ly, ay) =
          read_at_lem written_ring (place block_size s f j) n written_ring-IsValid (place-lt j lj)
            (omega (arith, ln, gap block_size 0 1024 (omega arith), h.slice_fits)) in
        ey
        ∙ ap some (
            get_or_ext 0 y x (ly ∙ sym lx) (λ k lt.
              ay k (omega (arith, lt, ly))
              ∙ untouched j k lj ne (omega (arith, lt, ly, ln))
              ∙ sym (ax k (omega (arith, lt, ly)))))
        ∙ sym ex

  pub write_at-fits :
      (i : ℕ) (b : Bytes)
      → i < 1024
      → length b ≤ block_size
      → (g : Fifo) × (write_at f (place block_size s f i) b ≡ some g)
  write_at-fits i b li lb =
      (record f { buffer = (after_write i b li lb).0 }, (after_write i b li lb).1)

  -- What is written at one block's place is read back there, and what is read at another's stays.
  pub write_at-keeps :
      (i j n : ℕ) (b : Bytes) (g : Fifo)
      → i < 1024
      → j < 1024
      → i ≢ j
      → length b ≤ block_size
      → n ≤ block_size
      → write_at f (place block_size s f i) b ≡ some g
      → read_at g (place block_size s g j) n ≡ read_at f (place block_size s f j) n
  unfolding written_ring
  write_at-keeps i j n b g li lj ne lb ln w =
      subst
        (λ (t : Fifo). read_at t (place block_size s t j) n ≡ read_at f (place block_size s f j) n)
        (some-injective _ _ (sym (after_write i b li lb).1 ∙ w))
        (same_reading i b li lb j n lj ne ln)

  pub write_at-back :
      (i : ℕ) (b : Bytes) (g : Fifo)
      → i < 1024
      → length b ≤ block_size
      → write_at f (place block_size s f i) b ≡ some g
      → HasRoom block_size g s.base × (read_at g (place block_size s g i) (length b) ≡ some b)
  unfolding written_ring
  write_at-back i b g li lb w =
      subst
        (λ (t : Fifo).
          HasRoom block_size t s.base × (read_at t (place block_size s t i) (length b) ≡ some b))
        (some-injective _ _ (sym (after_write i b li lb).1 ∙ w))
        (
          record {
            valid = written_ring-IsValid i b li lb;
            some_bytes = h.some_bytes;
            slice_fits = h.slice_fits;
            small = h.small;
            inside = h.inside;
          },
          read_at-write_at f (written_ring i b li lb) (place block_size s f i) b h.valid
              (place-lt i li) (omega (arith, lb, gap block_size 0 1024 (omega arith), h.slice_fits))
              (after_write i b li lb).1,
        )
