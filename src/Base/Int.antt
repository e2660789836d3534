-- ===== src/Base/Int.antt =====
-- Signed integers, and Go's conversions between a 64-bit int and a uint64.
use Prim.Native.Nat.{ℕ, ◌-◌, ◌%◌, ◌<◌}
use mathlib.Core.Path.{◌≡◌}
use native.Mathlib.Omega.{arith}
use gosh.Base.Tests.{ltb, if◌then◌else◌}

-- `negsuc n` is -(n + 1).
pub data ℤ : Type 0 where
  pos : ℕ → ℤ
  negsuc : ℕ → ℤ

-- `uint64(int64(n))`: two's complement.
unfoldable pub to_uint64 : ℤ → ℕ
to_uint64 (pos n) = n % 18446744073709551616
to_uint64 (negsuc n) = 18446744073709551615 - n % 18446744073709551616

-- `int(int64(v))`, on a 64-bit platform.
unfoldable pub of_uint64 : ℕ → ℤ
of_uint64 v = if ltb v 9223372036854775808 then pos v else negsuc (18446744073709551615 - v)

-- The range of a 64-bit int.
abbrev pub IsInt64 : ℤ → Type 0
IsInt64 (pos n) = n < 9223372036854775808
IsInt64 (negsuc n) = n < 9223372036854775808

pub of_uint64-to_uint64 : (z : ℤ) → IsInt64 z → of_uint64 (to_uint64 z) ≡ z
unfolding of_uint64 to_uint64
of_uint64-to_uint64 (pos n) h = ground arith
of_uint64-to_uint64 (negsuc n) h = ground arith

pub to_uint64-lt : (z : ℤ) → to_uint64 z < 18446744073709551616
unfolding to_uint64
to_uint64-lt (pos n) = omega arith
to_uint64-lt (negsuc n) = omega arith
