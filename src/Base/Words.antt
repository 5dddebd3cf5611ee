-- ===== src/Base/Words.antt =====
-- Machine integers as bit patterns below 2 ^ 32.
use Prim.Native.Nat.{ℕ, ◌+◌, ◌-◌, ◌%◌, ◌^◌}
use mathlib.Core.Bool.{Bool}
use thkvs.Base.Tests.{leb}

abbrev pub u32_mod : ℕ
u32_mod = 2 ^ 32

-- The `int` -1.
abbrev pub minus_one : ℕ
minus_one = 0xffff_ffff

abbrev pub add32 : ℕ → ℕ → ℕ
add32 a b = (a + b) % u32_mod

abbrev pub sub32 : ℕ → ℕ → ℕ
sub32 a b = (a + u32_mod - b) % u32_mod

-- `a <= b` on `int`s, and `a >= b` the other way round.
abbrev pub leb_int : ℕ → ℕ → Bool
leb_int a b = leb ((a + 2 ^ 31) % u32_mod) ((b + 2 ^ 31) % u32_mod)
