-- ===== src/Base/Copy.antt =====
-- What `copy_from_slice` into a part of an array changes, and what it leaves.
use Prim.Native.Nat.{ℕ, ◌+◌, ◌-◌, ◌≤◌, ◌<◌}
use mathlib.Core.Path.{◌≡◌, ap, ◌∙◌}
use mathlib.Core.Bool.{◌&&◌}
use mathlib.Core.List.{◌++◌}
use native.Mathlib.Decide.{dec_lt}
use native.Mathlib.Omega.{arith}
use udpcast_rs.Base.Lists.{
  length, get_or, take, drop, length-append, length-take, length-drop, get_or-append_left,
  get_or-append_right, get_or-take, get_or-drop,
}
use udpcast_rs.Base.Tests.{ltb, leb, if◌then◌else◌}
use udpcast_rs.Base.Endian.{Bytes, copy_at}

-- The same index, written as an offset behind a prefix.
get_or-append_at :
    (xs ys : Bytes) (n i j : ℕ) → length xs ≡ n → i ≡ n + j → get_or (xs ++ ys) i 0 ≡ get_or ys j 0
get_or-append_at xs ys n i j e k =
    ap (λ (m : ℕ). get_or (xs ++ ys) m 0) (omega arith) ∙ get_or-append_right xs ys j 0

module _ (i : ℕ) (src b : Bytes) (fits : i + length src ≤ length b) where
  length-before : length (take i b) ≡ i
  length-before = omega (arith, length-take i b)

  pub length-copy_at : length (copy_at i src b) ≡ length b
  length-copy_at = omega (
    arith,
    length-append (take i b) (src ++ drop (i + length src) b),
    length-append src (drop (i + length src) b),
    length-before,
    length-drop (i + length src) b,
  )

  pub get_or-copy_at_in :
      (k : ℕ) → k < length src → get_or (copy_at i src b) (i + k) 0 ≡ get_or src k 0
  get_or-copy_at_in k lt =
      get_or-append_at (take i b) (src ++ drop (i + length src) b) i (i + k) k length-before
        (omega arith)
      ∙ get_or-append_left src (drop (i + length src) b) k 0 lt

  pub get_or-copy_at_before : (k : ℕ) → k < i → get_or (copy_at i src b) k 0 ≡ get_or b k 0
  get_or-copy_at_before k lt =
      get_or-append_left (take i b) (src ++ drop (i + length src) b) k 0
        (omega (arith, length-before))
      ∙ get_or-take i b k 0 lt

  pub get_or-copy_at_after :
      (k : ℕ) → i + length src ≤ k → get_or (copy_at i src b) k 0 ≡ get_or b k 0
  get_or-copy_at_after k le =
      get_or-append_at (take i b) (src ++ drop (i + length src) b) i k (k - i) length-before
        (omega arith)
      ∙ get_or-append_at src (drop (i + length src) b) (length src) (k - i) (k - i - length src)
          (omega arith) (omega arith)
      ∙ get_or-drop (i + length src) b (k - i - length src) 0
      ∙ ap (λ (m : ℕ). get_or b m 0) (omega arith)

  -- All three at once.
  pub get_or-copy_at :
      (j : ℕ)
      → get_or (copy_at i src b) j 0
        ≡ (if leb i j && ltb j (i + length src) then get_or src (j - i) 0 else get_or b j 0)
  get_or-copy_at j = elim (dec_lt j i) [
    | yes p ↦ ground (arith, get_or-copy_at_before j p)
    | no p ↦ elim (dec_lt j (i + length src)) [
      | yes q ↦ ground (arith, inside q, here p)
      | no q ↦ ground (arith, get_or-copy_at_after j (omega arith))
    ]
  ]
    where
      here : ¬ (j < i) → i + (j - i) ≡ j
      here p = omega arith

      inside :
          j < i + length src
          → ¬ (j < i)
          → get_or (copy_at i src b) (i + (j - i)) 0 ≡ get_or src (j - i) 0
      inside q p = get_or-copy_at_in (j - i) (omega arith)
