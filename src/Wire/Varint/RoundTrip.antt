-- ===== src/Wire/Varint/RoundTrip.antt =====
-- `readVarint` undoes `appendVarint`.
use gosh.Base.{
  ℕ, zero, suc, ◌+◌, ◌*◌, ◌/◌, ◌%◌, ◌^◌, ◌≤◌, ◌<◌, bit_and, bit_or, arith, [], ◌∷◌, ◌++◌, Bytes,
  IsU64, ltb, if◌then◌else◌, ◌≡◌, ◌≢◌, ap, ◌∙◌, append_assoc, length, ok, err,
}
use gosh.Base.Bits.{bit_or_shifted, bit_and_mask, bit_or_top, bit_or-lt}
use gosh.Base.Order.{lt_wf}
use gosh.Wire.Error.{out_of_fuel}
use gosh.Wire.Varint.{append_varint_loop, append_varint, read_varint_loop, read_varint}
use mathlib.Core.WellFounded.{Acc}
use native.Mathlib.Nat.{div-add-mod}
use native.Mathlib.Numerals.{towards_suc}

-- The groups of seven bits of `v`, lowest first, for `v` below 128 ^ (k + 1).
unfoldable pub groups : ℕ → ℕ → Bytes
groups zero v = v ∷ []
groups (suc k) v =
    let rest = groups k (v / 128) in if ltb v 128 then v ∷ [] else (v % 128 + 128) ∷ rest

marked_group : (v : ℕ) → bit_or (v % 256) 0x80 ≡ v % 128 + 128
marked_group v = bit_or_top (v % 256) (omega arith) ∙ omega arith

append_varint_loop-groups :
    (k : ℕ) (b : Bytes) (v : ℕ) (w : Acc ◌<◌ v)
    → v < 128 ^ suc k
    → append_varint_loop b v w ≡ b ++ groups k v
unfolding append_varint_loop groups
append_varint_loop-groups zero b v (Acc.intro _ smaller) h = ground arith
append_varint_loop-groups (suc k) b v (Acc.intro _ smaller) h =
    let head : Bytes = (v % 128 + 128) ∷ [] in
    grind (
      arith,
      marked_group v,
      λ (w : Acc ◌<◌ (v / 128)). append_varint_loop-groups k (b ++ head) (v / 128) w (omega arith),
      append_assoc b head (groups k (v / 128)),
    )

pub append_varint-groups : (b : Bytes) (v : ℕ) → IsU64 v → append_varint b v ≡ b ++ groups 9 v
unfolding append_varint
append_varint-groups b v h = append_varint_loop-groups 9 b v (lt_wf.apply v) (omega arith)

pub length-groups : (k v : ℕ) → (1 ≤ length (groups k v)) × (length (groups k v) ≤ k + 1)
unfolding groups
length-groups zero v = omega arith
length-groups (suc k) v = ground (arith, length-groups k (v / 128))

shift_seven : (i : ℕ) → 2 ^ (7 * (i + 1)) ≡ 128 * 2 ^ (7 * i)
shift_seven i = ap (λ (t : ℕ). 2 ^ t) seven_more ∙ simp towards_suc (omega arith)
  where
    seven_more : 7 * (i + 1) ≡ 7 * i + 7
    seven_more = omega arith

split_group : (w i : ℕ) → w * 2 ^ (7 * i) ≡ w % 128 * 2 ^ (7 * i) + w / 128 * 2 ^ (7 * (i + 1))
split_group w i = omega (
  arith,
  ap (λ (t : ℕ). t * 2 ^ (7 * i)) (div-add-mod w 128),
  ap (λ (t : ℕ). w / 128 * t) (shift_seven i),
)

-- One round of the loop on the group `g` at place `i`, where what is read so far fits below it.
joined_group :
    (v g i : ℕ)
    → v < 2 ^ (7 * i)
    → IsU64 (v + g * 2 ^ (7 * i))
    → bit_or v (g * 2 ^ (7 * i) % 2 ^ 64) ≡ v + g * 2 ^ (7 * i)
joined_group v g i hv h = ground (arith, bit_or_shifted (7 * i) v g)

low_group : (c : ℕ) → bit_and c 0x7F ≡ c % 128
low_group c = bit_and_mask 7 c

last_group :
    (w v i : ℕ) (rest : Bytes)
    → w < 128
    → i < 10
    → v < 2 ^ (7 * i)
    → IsU64 (v + w * 2 ^ (7 * i))
    → read_varint_loop (w ∷ rest) v i ≡ ok (v + w * 2 ^ (7 * i), i + 1)
unfolding read_varint_loop
last_group w v i rest hw hi hv h = ground (arith, low_group w, joined_group v w i)

inner_group :
    (g v i : ℕ) (rest : Bytes)
    → g < 128
    → i < 10
    → v < 2 ^ (7 * i)
    → IsU64 (v + g * 2 ^ (7 * i))
    → read_varint_loop ((g + 128) ∷ rest) v i ≡ read_varint_loop rest (v + g * 2 ^ (7 * i)) (i + 1)
unfolding read_varint_loop
inner_group g v i rest hg hi hv h = ground (arith, low_group (g + 128), joined_group v g i)

below_next : (v g p : ℕ) → v < p → g < 128 → v + g * p < 128 * p
below_next v g p hv hg = grind arith

-- `v` holds the groups read, and `w` is what is still to be read.
read_varint_loop-groups :
    (k w v i : ℕ) (rest : Bytes)
    → w < 128 ^ suc k
    → i + k < 10
    → v < 2 ^ (7 * i)
    → IsU64 (v + w * 2 ^ (7 * i))
    → read_varint_loop (groups k w ++ rest) v i ≡ ok (v + w * 2 ^ (7 * i), i + length (groups k w))
unfolding groups
read_varint_loop-groups zero w v i rest hw hi hv h = last_group w v i rest hw (omega arith) hv h
read_varint_loop-groups (suc k) w v i rest hw hi hv h = ground (
  arith,
  last_group w v i rest,
  split_group w i,
  shift_seven i,
  below_next v (w % 128) (2 ^ (7 * i)) hv (omega arith),
  inner_group (w % 128) v i (groups k (w / 128) ++ rest),
  read_varint_loop-groups k (w / 128) (v + w % 128 * 2 ^ (7 * i)) (i + 1) rest (omega arith),
)

-- `readVarint` reads back the uint64 that `appendVarint` wrote, whatever follows it, and counts
-- its bytes.
pub read_varint-append_varint :
    (v : ℕ) (rest : Bytes)
    → IsU64 v
    → read_varint (append_varint [] v ++ rest) ≡ ok (v, length (append_varint [] v))
unfolding read_varint
read_varint-append_varint v rest h =
    rw (append_varint-groups [] v h) (ground (arith, read_varint_loop-groups 9 v 0 0 rest))

pub append_varint-append :
    (b : Bytes) (v : ℕ) → IsU64 v → append_varint b v ≡ b ++ append_varint [] v
append_varint-append b v h = rw (append_varint-groups b v h, append_varint-groups [] v h)

-- A uint64 takes 1 to 10 bytes.
pub length-append_varint :
    (v : ℕ) → IsU64 v → (1 ≤ length (append_varint [] v)) × (length (append_varint [] v) ≤ 10)
length-append_varint v h = rw (append_varint-groups [] v h) (length-groups 9 v)

read_varint_loop_takes :
    (b : Bytes) (v i x n : ℕ)
    → read_varint_loop b v i ≡ ok (x, n)
    → v < 2 ^ 64
    → (i < n) × (n ≤ i + length b) × (n ≤ 10) × (x < 2 ^ 64)
unfolding read_varint_loop
read_varint_loop_takes [] v i x n e h = cc
read_varint_loop_takes (c ∷ b) v i x n e h =
    let g : ℕ = bit_and c 0x7F * 2 ^ (7 * i) % 2 ^ 64 in
    let fits : bit_or v g < 2 ^ 64 = bit_or-lt 64 v g h (omega arith) in
    ground (arith, fits, read_varint_loop_takes b (bit_or v g) (i + 1) x n)

-- A number that is read is a uint64, and took 1 to 10 bytes, all of them there.
pub read_varint_takes :
    (b : Bytes) (x n : ℕ)
    → read_varint b ≡ ok (x, n)
    → (1 ≤ n) × (n ≤ length b) × (n ≤ 10) × IsU64 x
unfolding read_varint
read_varint_takes b x n e = ground (arith, read_varint_loop_takes b 0 0 x n e (omega arith))

read_varint_loop-ne-out_of_fuel : (b : Bytes) (v i : ℕ) → read_varint_loop b v i ≢ err out_of_fuel
unfolding read_varint_loop
read_varint_loop-ne-out_of_fuel [] v i e = cc
read_varint_loop-ne-out_of_fuel (c ∷ b) v i e =
    let v' : ℕ = bit_or v (bit_and c 0x7F * 2 ^ (7 * i) % 2 ^ 64) in
    ground (arith, read_varint_loop-ne-out_of_fuel b v' (i + 1))

pub read_varint-ne-out_of_fuel : (b : Bytes) → read_varint b ≢ err out_of_fuel
unfolding read_varint
read_varint-ne-out_of_fuel b = read_varint_loop-ne-out_of_fuel b 0 0
