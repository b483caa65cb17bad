-- ===== src/DiskIo/Stretch.antt =====
-- A stretch of the ring, `window`: two that follow each other are one, and what a write elsewhere
-- leaves of it.
use native.Mathlib.Nat.{mod-eq_of_lt, mod-eq-sub-mod, mod-add-mod}
use mathlib.Core.Option.{some-injective}
use udpcast_rs.Base.{
  ℕ, ◌+◌, ◌-◌, ◌%◌, ◌<◌, ◌≤◌, ◌≡◌, sym, ap, ◌∙◌, subst, arith, some, ◌++◌, Bytes, length, get_or,
  get_or_ext, get_or-append, length-append, ltb, if◌then◌else◌, dec_lt,
}
use udpcast_rs.Fifo.{Fifo, write_at}
use udpcast_rs.Fifo.Ring.{IsValid, written, write_at-written, length-written, written_lem}
use udpcast_rs.Fifo.Window.{window, window_lem, length-window, read_at-window}
use udpcast_rs.Fifo.RoundTrip.{read_at-write_at}

-- Positions on a ring of `size`, with the one wrap-around written out.
pub around :
    (size pos k : ℕ)
    → pos < size
    → k ≤ size
    → (pos + k) % size ≡ (if ltb (pos + k) size then pos + k else pos + k - size)
around size pos k p l = elim (dec_lt (pos + k) size) [
  | yes h ↦ ground (arith, mod-eq_of_lt h)
  | no h ↦ ground (
    arith,
    mod-eq-sub-mod {n = pos + k} {m = size} (omega arith),
    mod-eq_of_lt {n = pos + k - size} {m = size} (omega arith),
  )
]

pub around_twice : (size pos a k : ℕ) → ((pos + a) % size + k) % size ≡ (pos + (a + k)) % size
around_twice size pos a k = mod-add-mod (pos + a) size k ∙ ap (λ (t : ℕ). t % size) (omega arith)

module _ (f : Fifo) (v : IsValid f) where
  -- Two stretches, the second at the end of the first.
  pub window-append :
      (pos a n : ℕ)
      → pos < f.data_buf_size
      → a + n ≤ f.data_buf_size
      → window f pos (a + n) ≡ window f pos a ++ window f ((pos + a) % f.data_buf_size) n
  window-append pos a n p l = get_or_ext 0 (window f pos (a + n)) both whole same
    where
      after : ℕ
      after = (pos + a) % f.data_buf_size

      after-lt : after < f.data_buf_size
      after-lt = omega arith

      both : Bytes
      both = window f pos a ++ window f after n

      whole : length (window f pos (a + n)) ≡ length both
      whole = omega (
        arith,
        length-window f v pos (a + n) p l,
        length-window f v pos a p (omega arith),
        length-window f v after n after-lt (omega arith),
        length-append (window f pos a) (window f after n),
      )

      same :
          (k : ℕ)
          → k < length (window f pos (a + n))
          → get_or (window f pos (a + n)) k 0 ≡ get_or both k 0
      same k lt = ground (
        arith,
        length-window f v pos (a + n) p l,
        length-window f v pos a p (omega arith),
        get_or-append (window f pos a) (window f after n) k 0,
        window_lem f v pos (a + n) p l k,
        window_lem f v pos a p (omega arith) k,
        window_lem f v after n after-lt (omega arith) (k - a),
        ap (λ (t : ℕ). get_or f.buffer t 0) (around_twice f.data_buf_size pos a (k - a)),
      )

  module _ (pos a : ℕ) (bytes : Bytes) (p : pos < f.data_buf_size)
      (fits : a + length bytes ≤ f.data_buf_size) where
    after : ℕ
    after = (pos + a) % f.data_buf_size

    after-lt : after < f.data_buf_size
    unfolding after
    after-lt = omega arith

    bytes-le : length bytes ≤ f.data_buf_size
    bytes-le = omega arith

    back :
        (k : ℕ)
        → k < a
        → (after + (f.data_buf_size - a + k)) % f.data_buf_size ≡ (pos + k) % f.data_buf_size
    unfolding after
    back k lt =
        around_twice f.data_buf_size pos a (f.data_buf_size - a + k)
        ∙ ap (λ (t : ℕ). t % f.data_buf_size) (omega arith)
        ∙ mod-eq-sub-mod {n = pos + k + f.data_buf_size} {m = f.data_buf_size} (omega arith)
        ∙ ap (λ (t : ℕ). t % f.data_buf_size) (omega arith)

    -- The write does not reach round to the stretch.
    apart :
        (k : ℕ)
        → k < a
        → get_or (written f after bytes) ((pos + k) % f.data_buf_size) 0
          ≡ get_or f.buffer ((pos + k) % f.data_buf_size) 0
    apart k lt =
        subst (λ (t : ℕ). get_or (written f after bytes) t 0 ≡ get_or f.buffer t 0) (back k lt)
          (ground (
            arith,
            written_lem f after bytes v after-lt bytes-le (f.data_buf_size - a + k) (omega arith),
          ))

    new_ring : Fifo
    new_ring = record f { buffer = written f after bytes }

    new_ring-IsValid : IsValid new_ring
    unfolding new_ring
    new_ring-IsValid = record {
      whole = length-written f after bytes v after-lt bytes-le;
      small = v.small;
    }

    kept : (m : ℕ) → m ≤ a → window new_ring pos m ≡ window f pos m
    unfolding new_ring
    kept m l = get_or_ext 0 (window new_ring pos m) (window f pos m) whole same
      where
        whole : length (window new_ring pos m) ≡ length (window f pos m)
        whole =
            length-window new_ring new_ring-IsValid pos m p (omega arith)
            ∙ sym (length-window f v pos m p (omega arith))

        below : (k : ℕ) → k < length (window new_ring pos m) → k < m
        below k lt = omega (arith, length-window new_ring new_ring-IsValid pos m p (omega arith))

        same :
            (k : ℕ)
            → k < length (window new_ring pos m)
            → get_or (window new_ring pos m) k 0 ≡ get_or (window f pos m) k 0
        same k lt = ground (
          arith,
          window_lem new_ring new_ring-IsValid pos m p (omega arith) k,
          window_lem f v pos m p (omega arith) k,
          apart k (omega (arith, below k lt, l)),
          below k lt,
        )

-- A write behind a stretch of `a` bytes leaves what begins at the stretch and is within it, and is
-- what then stands behind it.
pub record IsWritten (f g : Fifo) (pos a : ℕ) (bytes : Bytes) : Type 0 where
  pub valid : IsValid g
  pub before : (m : ℕ) → m ≤ a → window g pos m ≡ window f pos m
  pub behind : window g ((pos + a) % f.data_buf_size) (length bytes) ≡ bytes

pub write_at-behind :
    (f : Fifo) (pos a : ℕ) (bytes : Bytes)
    → IsValid f
    → pos < f.data_buf_size
    → a + length bytes ≤ f.data_buf_size
    → (b : Bytes) × (write_at f ((pos + a) % f.data_buf_size) bytes
        ≡ some (record f { buffer = b }))
      × IsWritten f (record f { buffer = b }) pos a bytes
unfolding after new_ring
write_at-behind f pos a bytes v p fits = (
  written f ((pos + a) % f.data_buf_size) bytes,
  done_write,
  record {
    valid = new_ring-IsValid f v pos a bytes p fits;
    before = kept f v pos a bytes p fits;
    behind = some-injective _ _ (
        sym (read_at-window _ (new_ring-IsValid f v pos a bytes p fits) _ (length bytes) here le)
        ∙ read_at-write_at f _ _ bytes v here le done_write);
  },
)
  where
    here : (pos + a) % f.data_buf_size < f.data_buf_size
    here = omega arith

    le : length bytes ≤ f.data_buf_size
    le = omega arith

    done_write :
        write_at f ((pos + a) % f.data_buf_size) bytes ≡ some (new_ring f v pos a bytes p fits)
    done_write = write_at-written f _ bytes v here le
