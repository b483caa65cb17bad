-- ===== src/Base/Fields.antt =====
-- A field that lies within the buffer is read.
use Prim.Native.Nat.{ℕ, ◌+◌, ◌-◌, ◌*◌, ◌^◌, ◌≤◌}
use mathlib.Core.Path.{◌≡◌, refl}
use mathlib.Core.List.{[], ◌∷◌}
use mathlib.Core.Option.{some}
use native.Mathlib.Omega.{arith}
use udpcast_rs.Base.Tests.{le→leb}
use udpcast_rs.Base.Lists.{length, take, drop, length-take, length-drop}
use udpcast_rs.Base.Endian.{Bytes, range, u16_at, u32_at, from_be16, from_be32}

range_length :
    (buf : Bytes) (i n : ℕ) → i + n ≤ length buf → length (take (i + n - i) (drop i buf)) ≡ n
range_length buf i n h = omega (arith, length-take (i + n - i) (drop i buf), length-drop i buf)

four_bytes : (l : Bytes) → length l ≡ 4 → (x : ℕ) × (from_be32 l ≡ some x)
four_bytes [] e = absurd (omega arith)
four_bytes (a ∷ []) e = absurd (omega arith)
four_bytes (a ∷ b ∷ []) e = absurd (omega arith)
four_bytes (a ∷ b ∷ c ∷ []) e = absurd (omega arith)
four_bytes (a ∷ b ∷ c ∷ d ∷ []) e = (a * 2 ^ 24 + b * 2 ^ 16 + c * 2 ^ 8 + d, refl)
four_bytes (a ∷ b ∷ c ∷ d ∷ x ∷ r) e = absurd (omega arith)

two_bytes : (l : Bytes) → length l ≡ 2 → (x : ℕ) × (from_be16 l ≡ some x)
two_bytes [] e = absurd (omega arith)
two_bytes (a ∷ []) e = absurd (omega arith)
two_bytes (a ∷ b ∷ []) e = (a * 2 ^ 8 + b, refl)
two_bytes (a ∷ b ∷ x ∷ r) e = absurd (omega arith)

pub u32_at_within : (buf : Bytes) (i : ℕ) → i + 4 ≤ length buf → (x : ℕ) × (u32_at buf i ≡ some x)
unfolding u32_at range
u32_at_within buf i h =
    let (x, e) = four_bytes (take (i + 4 - i) (drop i buf)) (range_length buf i 4 h) in
    (x, rw (le→leb (i + 4) (length buf) h) e)

pub u16_at_within : (buf : Bytes) (i : ℕ) → i + 2 ≤ length buf → (x : ℕ) × (u16_at buf i ≡ some x)
unfolding u16_at range
u16_at_within buf i h =
    let (x, e) = two_bytes (take (i + 2 - i) (drop i buf)) (range_length buf i 2 h) in
    (x, rw (le→leb (i + 2) (length buf) h) e)

pub range_within : (buf : Bytes) (i j : ℕ) → j ≤ length buf → (b : Bytes) × (range buf i j ≡ some b)
unfolding range
range_within buf i j h = (take (j - i) (drop i buf), rw (le→leb j (length buf) h) refl)
