-- ===== src/Base/Word.antt =====
-- 64-bit words: native numbers, with the wrap-around of SIZE_T, ULONG_PTR and INT64 written out.
use Prim.Native.Nat.{ℕ, ◌+◌, ◌-◌, ◌*◌, ◌%◌, ◌≤◌, ◌<◌}
use mathlib.Core.Path.{◌≡◌}
use mathlib.Core.Bool.{Bool}
use native.Mathlib.Omega.{arith}
use vcmalloc_bench.Base.Tests.{leb, ltb}

-- 2 ^ 64
abbrev pub w64 : ℕ
w64 = 0x1_0000_0000_0000_0000

-- 2 ^ 63, from which on a bit pattern stands for a negative INT64
abbrev pub sign64 : ℕ
sign64 = 0x8000_0000_0000_0000

unfoldable pub add64 : ℕ → ℕ → ℕ
add64 a b = (a + b) % w64

unfoldable pub sub64 : ℕ → ℕ → ℕ
sub64 a b = (a + w64 - b) % w64

unfoldable pub mul64 : ℕ → ℕ → ℕ
mul64 a b = (a * b) % w64

-- an INT64 bit pattern below zero
unfoldable pub is_negative : ℕ → Bool
is_negative a = leb sign64 a

pub add64-exact : (a b : ℕ) → a + b < w64 → add64 a b ≡ a + b
unfolding add64
add64-exact a b h = omega arith

pub sub64-exact : (a b : ℕ) → b ≤ a → a < w64 → sub64 a b ≡ a - b
unfolding sub64
sub64-exact a b h k = omega arith

pub mul64-exact : (a b : ℕ) → a * b < w64 → mul64 a b ≡ a * b
unfolding mul64
mul64-exact a b h = omega arith

-- The sign of a difference of addresses in the lower half of the address space.
pub is_negative-sub64 : (a b : ℕ) → a < sign64 → b < sign64 → is_negative (sub64 a b) ≡ ltb a b
unfolding is_negative sub64
is_negative-sub64 a b h k = ground arith

pub sub64-zero : (a b : ℕ) → a < w64 → b < w64 → sub64 a b ≡ 0 → a ≡ b
unfolding sub64
sub64-zero a b h k e = omega arith

pub sub64_self : (a : ℕ) → a < w64 → sub64 a a ≡ 0
unfolding sub64
sub64_self a h = omega arith
