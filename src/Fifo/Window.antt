-- ===== src/Fifo/Window.antt =====
-- What `read_at` copies out of the ring.
use native.Mathlib.Nat.{mod-eq_of_lt, mod-eq-sub-mod}
use udpcast_rs.Base.{
  ℕ, ◌+◌, ◌-◌, ◌%◌, ◌<◌, ◌≤◌, ◌≡◌, ◌∙◌, some, arith, Bytes, length, get_or, take, drop, min, le→leb,
  length-take, length-drop, length-append, get_or-append, get_or-take, get_or-drop, dec_lt, ◌++◌,
}
use udpcast_rs.Fifo.{Fifo, read_at, slice}
use udpcast_rs.Fifo.Ring.{IsValid, left-eq}

pub slice-fits : (b : Bytes) (i n : ℕ) → i + n ≤ length b → slice b i n ≡ some (take n (drop i b))
unfolding slice
slice-fits b i n h = rw (le→leb (i + n) (length b) h)

-- What `read_at` copies out.
unfoldable pub window : Fifo → ℕ → ℕ → Bytes
window f offset size =
    let first = min size (f.data_buf_size - offset) in
    take first (drop offset f.buffer) ++ take (size - first) (drop 0 f.buffer)

module _ (f : Fifo) (v : IsValid f) (offset n : ℕ) (o : offset < f.data_buf_size)
    (l : n ≤ f.data_buf_size) where
  pub read_at-window : read_at f offset n ≡ some (window f offset n)
  unfolding read_at window
  read_at-window = rw (
    left-eq f offset v o,
    slice-fits f.buffer offset (min n (f.data_buf_size - offset)) (omega (arith, v.whole)),
    slice-fits f.buffer 0 (n - min n (f.data_buf_size - offset)) (omega (arith, v.whole)),
  )

  pub length-window : length (window f offset n) ≡ n
  unfolding window
  length-window = ground (
    arith,
    v.whole,
    length-append (take (min n (f.data_buf_size - offset)) (drop offset f.buffer))
        (take (n - min n (f.data_buf_size - offset)) f.buffer),
    length-take (min n (f.data_buf_size - offset)) (drop offset f.buffer),
    length-take (n - min n (f.data_buf_size - offset)) f.buffer,
    length-drop offset f.buffer,
  )

  pub window_lem :
      (k : ℕ)
      → k < n
      → get_or (window f offset n) k 0 ≡ get_or f.buffer ((offset + k) % f.data_buf_size) 0
  unfolding window
  window_lem k lt = elim (dec_lt (offset + k) f.data_buf_size) [
    | yes p ↦ rw (mod-eq_of_lt p) (
        ground (
          arith,
          v.whole,
          get_or-append before after k 0,
          length-take (min n (f.data_buf_size - offset)) (drop offset f.buffer),
          length-drop offset f.buffer,
          get_or-take (min n (f.data_buf_size - offset)) (drop offset f.buffer) k 0,
          get_or-drop offset f.buffer k 0,
        ))
    | no p ↦ rw (around p) (
        ground (
          arith,
          v.whole,
          get_or-append before after k 0,
          length-take (min n (f.data_buf_size - offset)) (drop offset f.buffer),
          length-drop offset f.buffer,
          get_or-take (n - min n (f.data_buf_size - offset)) f.buffer (offset + k - f.data_buf_size)
              0,
        ))
  ]
    where
      before : Bytes
      before = take (min n (f.data_buf_size - offset)) (drop offset f.buffer)

      after : Bytes
      after = take (n - min n (f.data_buf_size - offset)) f.buffer

      around :
          ¬ (offset + k < f.data_buf_size)
          → (offset + k) % f.data_buf_size ≡ offset + k - f.data_buf_size
      around p = mod-eq-sub-mod (omega arith) ∙ mod-eq_of_lt (omega arith)
