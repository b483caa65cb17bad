-- ===== src/Base/Endian.antt =====
-- The byte strings of the wire: big-endian integers and the slices of a buffer. An integer of a
-- fixed width is its bit pattern, so i32 and u32 share one encoding.
use Prim.Native.Nat.{ℕ, zero, suc, ◌+◌, ◌-◌, ◌*◌, ◌/◌, ◌%◌, ◌^◌, ◌≤◌, ◌<◌}
use mathlib.Core.Path.{◌≡◌, refl, ap, ◌∙◌}
use mathlib.Core.Option.{Option, none, some}
use mathlib.Core.List.{List, [], ◌∷◌, ◌++◌}
use native.Mathlib.Omega.{arith}
use udpcast_rs.Base.Tests.{ltb, leb, le→leb, if◌then◌else◌, ◌>>=◌}
use udpcast_rs.Base.Lists.{
  length, take, drop, take-append-length, drop-append-length, length-append,
}

abbrev pub Bytes : Type 0
Bytes = List ℕ

-- `to_be_bytes` at 16 and at 32 bits
abbrev pub be16 : ℕ → Bytes
be16 x = x / 2 ^ 8 % 2 ^ 8 ∷ x % 2 ^ 8 ∷ []

abbrev pub be32 : ℕ → Bytes
be32 x = x / 2 ^ 24 % 2 ^ 8 ∷ x / 2 ^ 16 % 2 ^ 8 ∷ x / 2 ^ 8 % 2 ^ 8 ∷ x % 2 ^ 8 ∷ []

-- `from_be_bytes`; `none` is the panic of `try_into().unwrap()` at another length.
abbrev pub from_be16 : Bytes → Option ℕ
from_be16 (a ∷ b ∷ []) = some (a * 2 ^ 8 + b)
from_be16 _ = none

abbrev pub from_be32 : Bytes → Option ℕ
from_be32 (a ∷ b ∷ c ∷ d ∷ []) = some (a * 2 ^ 24 + b * 2 ^ 16 + c * 2 ^ 8 + d)
from_be32 _ = none

-- `x as i16` of an i32, and `x as i32` of an i16, which extends the sign.
abbrev pub as_i16 : ℕ → ℕ
as_i16 x = x % 2 ^ 16

abbrev pub i16_as_i32 : ℕ → ℕ
i16_as_i32 x = if ltb x (2 ^ 15) then x else x + (2 ^ 32 - 2 ^ 16)

-- `&buf[i..j]`; `none` is the panic of an index out of range.
unfoldable pub range : Bytes → ℕ → ℕ → Option Bytes
range buf i j = if leb j (length buf) then some (take (j - i) (drop i buf)) else none

-- `b[i..i + src.len()].copy_from_slice(src)` in an array that is long enough
abbrev pub copy_at : ℕ → Bytes → Bytes → Bytes
copy_at i src b = take i b ++ (src ++ drop (i + length src) b)

pub from_be32-be32 : (x : ℕ) → x < 2 ^ 32 → from_be32 (be32 x) ≡ some x
from_be32-be32 x h = ap some (omega arith)

pub from_be16-be16 : (x : ℕ) → x < 2 ^ 16 → from_be16 (be16 x) ≡ some x
from_be16-be16 x h = ap some (omega arith)

-- A pattern that an i16 can hold comes back whole.
pub i16_as_i32-as_i16 :
    (x : ℕ) → x < 2 ^ 32 → (x + 2 ^ 15) % 2 ^ 32 < 2 ^ 16 → i16_as_i32 (as_i16 x) ≡ x
i16_as_i32-as_i16 x h k = ground arith

-- A field of known length behind a prefix of known length is read back, whatever follows it.
pub range-append :
    (i j : ℕ) (pre mid post : Bytes)
    → length pre ≡ i
    → i + length mid ≡ j
    → range (pre ++ (mid ++ post)) i j ≡ some mid
unfolding range
range-append i j pre mid post e k =
    rw (le→leb j (length (pre ++ (mid ++ post))) fits) (ap some parts)
  where
    fits : j ≤ length (pre ++ (mid ++ post))
    fits = omega (arith, length-append pre (mid ++ post), length-append mid post)

    width : j - i ≡ length mid
    width = omega arith

    parts : take (j - i) (drop i (pre ++ (mid ++ post))) ≡ mid
    parts = rw (width, ← e, drop-append-length pre (mid ++ post)) (take-append-length mid post)

-- The integer field of two or four bytes at offset `i` of the buffer.
unfoldable pub u16_at : Bytes → ℕ → Option ℕ
u16_at buf i = do b ← range buf i (i + 2); from_be16 b

unfoldable pub u32_at : Bytes → ℕ → Option ℕ
u32_at buf i = do b ← range buf i (i + 4); from_be32 b

pub u32_at-append :
    (i : ℕ) (pre : Bytes) (x : ℕ) (post : Bytes)
    → length pre ≡ i
    → x < 2 ^ 32
    → u32_at (pre ++ (be32 x ++ post)) i ≡ some x
unfolding u32_at
u32_at-append i pre x post e h =
    rw (range-append i (i + 4) pre (be32 x) post e refl) (from_be32-be32 x h)

pub u16_at-append :
    (i : ℕ) (pre : Bytes) (x : ℕ) (post : Bytes)
    → length pre ≡ i
    → x < 2 ^ 16
    → u16_at (pre ++ (be16 x ++ post)) i ≡ some x
unfolding u16_at
u16_at-append i pre x post e h =
    rw (range-append i (i + 2) pre (be16 x) post e refl) (from_be16-be16 x h)

-- The part of a buffer behind a field of known length.
pub take-append_of_length : (n : ℕ) (xs ys : Bytes) → length xs ≡ n → take n (xs ++ ys) ≡ xs
take-append_of_length n xs ys e = rw (← e) (take-append-length xs ys)

pub drop-append_past :
    (n k : ℕ) (xs ys : Bytes) → length xs ≡ n → drop (n + k) (xs ++ ys) ≡ drop k ys
drop-append_past n k [] ys e = ap (λ (i : ℕ). drop i ys) (omega arith)
drop-append_past zero k (x ∷ xs) ys e = absurd (omega arith)
drop-append_past (suc n) k (x ∷ xs) ys e =
    ap (λ (i : ℕ). drop i (x ∷ xs ++ ys)) step ∙ drop-append_past n k xs ys (omega arith)
  where
    step : suc n + k ≡ suc (n + k)
    step = omega arith
