-- ===== src/Wire/Varint.antt =====
-- internal/wire/wire.go, `appendVarint` and `readVarint`. A byte slice is a list of numbers and a
-- uint64 a number below 2 ^ 64.
pub mod RoundTrip
use gosh.Base.{
  ℕ, ◌+◌, ◌*◌, ◌/◌, ◌%◌, ◌^◌, ◌≤◌, ◌<◌, bit_and, bit_or, arith, List, [], ◌∷◌, ◌++◌, Bytes, ltb,
  leb, if◌then◌else◌, Result, ok, err,
}
use gosh.Base.Order.{lt_wf}
use gosh.Wire.Error.{WireError, truncated, varint_overflow}
use mathlib.Core.Logic.{dite}
use mathlib.Core.WellFounded.{Acc}
use native.Mathlib.Decide.{dec_le}

pub shift_falls : (v : ℕ) → 128 ≤ v → v / 128 < v
shift_falls v h = omega arith

-- `byte(v)` is `v % 256` and `v >>= 7` is `v / 128`.
append_varint_loop : Bytes → (v : ℕ) → Acc ◌<◌ v → Bytes
append_varint_loop b v (Acc.intro _ smaller) =
    dite (dec_le 128 v)
      (λ more.
        append_varint_loop (b ++ bit_or (v % 256) 0x80 ∷ []) (v / 128)
          (smaller _ (shift_falls v more)))
      (λ _. b ++ (v % 256) ∷ [])

unfoldable pub append_varint : Bytes → ℕ → Bytes
unfolding append_varint_loop lt_wf dec_le
append_varint b v = append_varint_loop b v (lt_wf.apply v)

-- The list is what the loop has not reached, `i` counts the bytes read. A shift of a uint64
-- drops the bits past bit 63.
unfoldable pub read_varint_loop : Bytes → ℕ → ℕ → Result WireError (ℕ × ℕ)
read_varint_loop [] v i = err truncated
read_varint_loop (c ∷ b) v i =
    let v' = bit_or v (bit_and c 0x7F * 2 ^ (7 * i) % 2 ^ 64) in
    let more = read_varint_loop b v' (i + 1) in
    if leb 10 i then err varint_overflow else if ltb c 0x80 then ok (v', i + 1) else more

unfoldable pub read_varint : Bytes → Result WireError (ℕ × ℕ)
unfolding read_varint_loop
read_varint b = read_varint_loop b 0 0
