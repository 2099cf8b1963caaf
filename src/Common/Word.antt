-- ===== src/Common/Word.antt =====
-- Rust's machine integers, as a release build computes them (no overflow checks are configured in
-- Cargo.toml): `u32` wraps, and an `i32` is read from its 32-bit pattern.
use Prim.Native.Nat.{ℕ, ◌%◌, ◌<◌}
use mathlib.Core.Path.{◌≡◌}
use native.Mathlib.Omega.{arith}
use bhtune.Common.Tests.{ltb, if◌then◌else◌}
use bhtune.Common.Int.{ℤ, pos, sub_ℕ}

abbrev pub u32_mod : ℕ
u32_mod = 4294967296

abbrev pub i32_bound : ℕ
i32_bound = 2147483648

abbrev pub u32 : ℕ → ℕ
u32 n = n % u32_mod

-- The two's complement reading of the low 32 bits.
unfoldable pub as_i32 : ℕ → ℤ
as_i32 n = if ltb (u32 n) i32_bound then pos (u32 n) else sub_ℕ (u32 n) u32_mod

pub as_i32_small : (n : ℕ) → n < i32_bound → as_i32 n ≡ pos n
unfolding as_i32
as_i32_small n h = ground arith
