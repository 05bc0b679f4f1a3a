-- ===== src/Prelude/Words.antt =====
-- Machine words: u64 and usize as numbers below 2 ^ 64, i64 as integers, and the `as` casts
-- between them, which keep the bit pattern.
use Prim.Native.Nat.{ℕ, ◌+◌, ◌-◌, ◌<◌}
use mathlib.Core.Path.{◌≡◌}
use native.Mathlib.Omega.{arith}
use http_cache.Prelude.Tests.{leb, if◌then◌else◌}
use http_cache.Prelude.Int.{ℤ, pos, negsuc, ◌+ℤ◌}

abbrev pub u64_mod : ℕ
u64_mod = 18446744073709551616

abbrev pub u64_max : ℕ
u64_max = 18446744073709551615

abbrev pub i64_max : ℕ
i64_max = 9223372036854775807

-- `x as i64` at an unsigned 64-bit `x`: from 2 ^ 63 on the sign bit is set.
abbrev pub as_i64 : ℕ → ℤ
as_i64 x = if leb x i64_max then pos x else negsuc (u64_max - x)

-- `x as u64` (and `x as usize`) at a signed 64-bit `x`.
abbrev pub as_u64 : ℤ → ℕ
as_u64 (pos n) = n
as_u64 (negsuc n) = u64_max - n

-- `a.saturating_add(b)` at u64.
abbrev pub saturating_add : ℕ → ℕ → ℕ
saturating_add a b = if leb (a + b) u64_max then a + b else u64_max

-- A sum of two i64 values, kept in the range of i64.
abbrev pub clamp_i64 : ℤ → ℤ
clamp_i64 (pos n) = if leb n i64_max then pos n else pos i64_max
clamp_i64 (negsuc n) = if leb n i64_max then negsuc n else negsuc i64_max

-- `a.saturating_add(b)` at i64.
unfoldable pub saturating_add_i64 : ℤ → ℤ → ℤ
unfolding ◌+ℤ◌
saturating_add_i64 a b = clamp_i64 (a +ℤ b)

-- The casts are inverse to one another on u64.
pub as_u64-as_i64 : (x : ℕ) → x < u64_mod → as_u64 (as_i64 x) ≡ x
as_u64-as_i64 x h = ground arith
