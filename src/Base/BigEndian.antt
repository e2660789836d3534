-- ===== src/Base/BigEndian.antt =====
-- Big-endian numbers in byte slices, as `encoding/binary` writes and reads them. A slice that is too
-- short has no number; every caller looks at the length first.
use Prim.Native.Nat.{ℕ, ◌+◌, ◌*◌, ◌/◌, ◌%◌, ◌<◌}
use mathlib.Core.Path.{◌≡◌}
use mathlib.Core.List.{[], ◌∷◌, ◌++◌}
use native.Mathlib.Omega.{arith}
use gosh.Base.Lists.{Bytes, IsU64}

unfoldable pub put_uint16 : ℕ → Bytes
put_uint16 v = v / 256 % 256 ∷ v % 256 ∷ []

unfoldable pub uint16 : Bytes → ℕ
uint16 (a ∷ b ∷ _) = a * 256 + b
uint16 _ = 0

unfoldable pub put_uint32 : ℕ → Bytes
put_uint32 v = v / 16777216 % 256 ∷ v / 65536 % 256 ∷ v / 256 % 256 ∷ v % 256 ∷ []

unfoldable pub uint32 : Bytes → ℕ
uint32 (a ∷ b ∷ c ∷ d ∷ _) = a * 16777216 + b * 65536 + c * 256 + d
uint32 _ = 0

unfoldable pub put_uint64 : ℕ → Bytes
unfolding put_uint32
put_uint64 v = put_uint32 (v / 4294967296) ++ put_uint32 (v % 4294967296)

unfoldable pub uint64 : Bytes → ℕ
unfolding uint32
uint64 (a ∷ b ∷ c ∷ d ∷ rest) = uint32 (a ∷ b ∷ c ∷ d ∷ []) * 4294967296 + uint32 rest
uint64 _ = 0

pub uint16-put_uint16 : (v : ℕ) → v < 65536 → uint16 (put_uint16 v) ≡ v
unfolding uint16 put_uint16
uint16-put_uint16 v h = omega arith

pub uint32-put_uint32 : (v : ℕ) → v < 4294967296 → uint32 (put_uint32 v) ≡ v
unfolding uint32 put_uint32
uint32-put_uint32 v h = omega arith

pub uint64-put_uint64 : (v : ℕ) → IsU64 v → uint64 (put_uint64 v) ≡ v
unfolding uint64 put_uint64
uint64-put_uint64 v h = omega (
  arith,
  uint32-put_uint32 (v / 4294967296) (omega arith),
  uint32-put_uint32 (v % 4294967296) (omega arith),
)
