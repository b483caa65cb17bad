-- ===== src/Fifo/Ring.antt =====
-- The buffer as a ring: index `k` of what is written at `offset` goes to `(offset + k)` modulo the
-- ring's size, and reading is the same the other way.
use native.Mathlib.Nat.{mod-eq_of_lt, mod-eq-sub-mod}
use udpcast_rs.Base.{
  usize_sub, ◌^◌, inl, inr, Bool-cases, if◌then◌else◌, ◌&&◌, ℕ, ◌+◌, ◌-◌, ◌%◌, ◌<◌, ◌≤◌, ◌≡◌, ◌∙◌,
  some, arith, Bytes, length, get_or, take, drop, copy_at, min, ltb, leb, le→leb, length-take,
  length-drop, length-copy_at, get_or-copy_at, get_or-take, get_or-drop, dec_lt,
}
use udpcast_rs.Fifo.{Fifo, write_at, copy_into}

pub record IsValid (f : Fifo) : Type 0 where
  pub whole : length f.buffer ≡ f.data_buf_size
  pub small : f.data_buf_size < 2 ^ 64

-- What is left behind an offset in the ring.
pub left-eq :
    (f : Fifo) (offset : ℕ)
    → IsValid f
    → offset < f.data_buf_size
    → usize_sub f.data_buf_size offset ≡ f.data_buf_size - offset
left-eq f offset v o = omega (arith, v.small)

copy_into-fits :
    (i : ℕ) (src b : Bytes) → i + length src ≤ length b → copy_into i src b ≡ some (copy_at i src b)
unfolding copy_into
copy_into-fits i src b h = rw (le→leb (i + length src) (length b) h)

module _ (f : Fifo) (offset : ℕ) (bytes : Bytes) where
  -- What goes before the end of the ring, and the buffer with it.
  first : ℕ
  first = min (length bytes) (f.data_buf_size - offset)

  head : Bytes
  head = copy_at offset (take first bytes) f.buffer

  -- What `write_at` leaves in the buffer.
  pub written : Bytes
  written = if ltb first (length bytes) then copy_at 0 (drop first bytes) head else head

  module _ (v : IsValid f) (o : offset < f.data_buf_size) (l : length bytes ≤ f.data_buf_size) where
    head-fits : offset + length (take first bytes) ≤ length f.buffer
    unfolding first
    head-fits = omega (arith, length-take first bytes, v.whole)

    length-head : length head ≡ length f.buffer
    unfolding head
    length-head = length-copy_at offset (take first bytes) f.buffer head-fits

    rest-fits : 0 + length (drop first bytes) ≤ length head
    unfolding first
    rest-fits = omega (arith, length-drop first bytes, length-head, v.whole)

    pub write_at-written : write_at f offset bytes ≡ some (record f { buffer = written })
    unfolding write_at written head first
    write_at-written =
        rw
          (
            left-eq f offset v o,
            copy_into-fits offset (take (min (length bytes) (f.data_buf_size - offset)) bytes)
                f.buffer head-fits,
          )
          (elim (Bool-cases (ltb (min (length bytes) (f.data_buf_size - offset)) (length bytes))) [
            | inl e ↦ rw (
              e,
              copy_into-fits 0 (drop (min (length bytes) (f.data_buf_size - offset)) bytes) head
                  rest-fits,
            )
            | inr e ↦ rw e
          ])

    pub length-written : length written ≡ f.data_buf_size
    unfolding written
    length-written =
        ground (arith, length-head, v.whole, length-copy_at 0 (drop first bytes) head rest-fits)

    first-le : first ≤ length bytes
    unfolding first
    first-le = omega arith

    head_at :
        (j : ℕ)
        → j < f.data_buf_size
        → get_or head j 0 ≡ (
            if leb offset j && ltb j (offset + first)
            then get_or bytes (j - offset) 0
            else get_or f.buffer j 0)
    unfolding head
    head_at j lt = ground (
      arith,
      get_or-copy_at offset (take first bytes) f.buffer head-fits j,
      length-take first bytes,
      get_or-take first bytes (j - offset) 0,
      first-le,
    )

    written_at :
        (j : ℕ)
        → j < f.data_buf_size
        → get_or written j 0
          ≡ (if ltb (first + j) (length bytes) then get_or bytes (first + j) 0 else get_or head j 0)
    unfolding written
    written_at j lt = ground (
      arith,
      get_or-copy_at 0 (drop first bytes) head rest-fits j,
      length-drop first bytes,
      get_or-drop first bytes j 0,
      first-le,
    )

    pub written_lem :
        (k : ℕ)
        → k < f.data_buf_size
        → get_or written ((offset + k) % f.data_buf_size) 0 ≡ (
            if ltb k (length bytes)
            then get_or bytes k 0
            else get_or f.buffer ((offset + k) % f.data_buf_size) 0)
    unfolding first
    written_lem k lt = elim (dec_lt (offset + k) f.data_buf_size) [
      | yes p ↦
          rw (mod-eq_of_lt p) (ground (arith, written_at (offset + k) p, head_at (offset + k) p))
      | no p ↦ rw (around p) (
          ground (
            arith,
            written_at (offset + k - f.data_buf_size),
            head_at (offset + k - f.data_buf_size),
          ))
    ]
      where
        around :
            ¬ (offset + k < f.data_buf_size)
            → (offset + k) % f.data_buf_size ≡ offset + k - f.data_buf_size
        around p = mod-eq-sub-mod (omega arith) ∙ mod-eq_of_lt (omega arith)

-- A write leaves the ring's size.
pub write_at-size :
    (f g : Fifo) (offset : ℕ) (bytes : Bytes)
    → write_at f offset bytes ≡ some g
    → g.data_buf_size ≡ f.data_buf_size
unfolding write_at
write_at-size f g offset bytes e = ground (arith, e)
