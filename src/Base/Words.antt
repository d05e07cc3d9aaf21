-- ===== src/Base/Words.antt =====
-- The unsigned integers of the source: `uint32_t` and `uint64_t` arithmetic wraps.
use Prim.Native.Nat.{ℕ, ◌%◌, ◌^◌, ◌<◌}
use mathlib.Core.Path.{◌≡◌}
use native.Mathlib.Omega.{arith}

abbrev pub u32 : ℕ → ℕ
u32 n = n % 2 ^ 32

abbrev pub u64 : ℕ → ℕ
u64 n = n % 2 ^ 64

-- INT_MAX of a 32-bit `int`.
abbrev pub int_max : ℕ
int_max = 2147483647

pub u64-eq_of_lt : (n : ℕ) → n < 2 ^ 64 → u64 n ≡ n
u64-eq_of_lt n h = omega arith
