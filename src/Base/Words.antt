-- ===== src/Base/Words.antt =====
-- `usize` arithmetic: 64 bits, and the release profile's wrap-around written out.
use Prim.Native.Nat.{ℕ, ◌+◌, ◌-◌, ◌*◌, ◌%◌, ◌^◌}
use mathlib.Core.Bool.{Bool}
use udpcast_rs.Base.Tests.{ltb}

abbrev pub usize_add : ℕ → ℕ → ℕ
usize_add a b = (a + b) % 2 ^ 64

abbrev pub usize_sub : ℕ → ℕ → ℕ
usize_sub a b = (a + 2 ^ 64 - b) % 2 ^ 64

abbrev pub usize_mul : ℕ → ℕ → ℕ
usize_mul a b = a * b % 2 ^ 64

-- i32 arithmetic on bit patterns, and the comparison of the signed values.
abbrev pub i32_add : ℕ → ℕ → ℕ
i32_add a b = (a + b) % 2 ^ 32

abbrev pub i32_sub : ℕ → ℕ → ℕ
i32_sub a b = (a + 2 ^ 32 - b) % 2 ^ 32

abbrev pub i32_lt : ℕ → ℕ → Bool
i32_lt a b = ltb ((a + 2 ^ 31) % 2 ^ 32) ((b + 2 ^ 31) % 2 ^ 32)

abbrev pub u32 : ℕ → ℕ
u32 a = a % 2 ^ 32
