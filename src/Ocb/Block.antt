-- ===== src/Ocb/Block.antt =====
-- internal/ocb/ocb.go: blocks of 16 bytes, and what the code takes from crypto/aes.
use gosh.Base.{
  ℕ, zero, suc, ◌*◌, ◌/◌, ◌%◌, bit_or, bit_xor, List, [], ◌∷◌, Bytes, length, replicate, ◌==◌,
  if◌then◌else◌, ◌≡◌, refl, ap, ◌∙◌, ◌≤◌, arith,
}
use gosh.Base.Bits.{bit_xor_twice}

abbrev pub block_size : ℕ
block_size = 16

-- The block cipher under one key, from crypto/aes.
pub record Block : Type 0 where
  pub encrypt : Bytes → Bytes
  pub decrypt : Bytes → Bytes

-- A block cipher permutes blocks. The laws speak of every list of 16 numbers: one with a number past
-- a byte never reaches the cipher, which may be taken to leave it as it is.
pub record IsBlock (b : Block) : Type 0 where
  pub length-encrypt : (x : Bytes) → length x ≡ 16 → length (b.encrypt x) ≡ 16
  pub length-decrypt : (x : Bytes) → length x ≡ 16 → length (b.decrypt x) ≡ 16
  pub decrypt-encrypt : (x : Bytes) → length x ≡ 16 → b.decrypt (b.encrypt x) ≡ x
  pub encrypt-decrypt : (x : Bytes) → length x ≡ 16 → b.encrypt (b.decrypt x) ≡ x

-- `xorBlock`, and the loops that combine bytes up to the end of the shorter slice.
unfoldable pub xor : Bytes → Bytes → Bytes
xor (x ∷ xs) (y ∷ ys) = bit_xor x y ∷ xor xs ys
xor _ _ = []

-- The loop of `double`, from the last byte on: the bytes, and the carry out of the first.
unfoldable pub double_loop : Bytes → Bytes × ℕ
double_loop [] = ([], 0)
double_loop (b ∷ src) =
    let (dst, carry) = double_loop src in (bit_or (b * 2 % 256) carry ∷ dst, b / 128)

unfoldable pub xor_last : Bytes → ℕ → Bytes
xor_last [] v = []
xor_last (b ∷ []) v = bit_xor b v ∷ []
xor_last (b ∷ c ∷ bs) v = b ∷ xor_last (c ∷ bs) v

unfoldable pub double : Bytes → Bytes
unfolding double_loop xor_last
double src = let (dst, carry) = double_loop src in xor_last dst (carry * 0x87 % 256)

-- The blocks behind `x` that doubling gives.
unfoldable pub doubles : ℕ → Bytes → List Bytes
unfolding double
doubles zero x = []
doubles (suc n) x = let y = double x in y ∷ doubles n y

-- `bits.TrailingZeros` of a number above 0, on the bits left.
unfoldable pub trailing_zeros : ℕ → ℕ → ℕ
trailing_zeros zero n = 0
trailing_zeros (suc width) n =
    let zeros = suc (trailing_zeros width (n / 2)) in if n % 2 == 0 then zeros else 0

-- `c.l[k]`; past its end, where the source panics, a block of zeros.
unfoldable pub block_at : List Bytes → ℕ → Bytes
block_at [] k = replicate 16 0
block_at (b ∷ bs) zero = b
block_at (b ∷ bs) (suc k) = block_at bs k

-- The checksum over the last bytes and the bit that ends them: each byte goes into its place, and
-- 0x80 into the place behind them.
unfoldable pub absorb : Bytes → Bytes → Bytes
absorb [] rest = []
absorb (c ∷ cs) [] = bit_xor c 0x80 ∷ cs
absorb (c ∷ cs) (b ∷ rest) = bit_xor c b ∷ absorb cs rest

pub length-xor : (a b : Bytes) → length a ≤ length b → length (xor a b) ≡ length a
unfolding xor
length-xor [] b h = refl
length-xor (x ∷ a) [] h = absurd (omega arith)
length-xor (x ∷ a) (y ∷ b) h = omega (arith, length-xor a b (omega arith))

pub xor_twice : (a b : Bytes) → length a ≤ length b → xor (xor a b) b ≡ a
unfolding xor
xor_twice [] b h = refl
xor_twice (x ∷ a) [] h = absurd (omega arith)
xor_twice (x ∷ a) (y ∷ b) h =
    ap (λ z. z ∷ xor (xor a b) b) (bit_xor_twice x y) ∙ ap (◌∷◌ x) (xor_twice a b (omega arith))

length-double_loop : (src : Bytes) → length (double_loop src).0 ≡ length src
unfolding double_loop
length-double_loop [] = refl
length-double_loop (b ∷ src) = omega (arith, length-double_loop src)

length-xor_last : (b : Bytes) (v : ℕ) → length (xor_last b v) ≡ length b
unfolding xor_last
length-xor_last [] v = refl
length-xor_last (b ∷ []) v = refl
length-xor_last (b ∷ c ∷ bs) v = omega (arith, length-xor_last (c ∷ bs) v)

pub length-double : (b : Bytes) → length (double b) ≡ length b
unfolding double
length-double b =
    length-xor_last (double_loop b).0 ((double_loop b).1 * 0x87 % 256) ∙ length-double_loop b

pub length-block_at-doubles :
    (n : ℕ) (x : Bytes) (k : ℕ) → length x ≡ 16 → length (block_at (doubles n x) k) ≡ 16
unfolding block_at doubles
length-block_at-doubles zero x k h = refl
length-block_at-doubles (suc n) x zero h = length-double x ∙ h
length-block_at-doubles (suc n) x (suc k) h =
    length-block_at-doubles n (double x) k (length-double x ∙ h)

pub length-absorb : (cs rest : Bytes) → length (absorb cs rest) ≡ length cs
unfolding absorb
length-absorb [] rest = refl
length-absorb (c ∷ cs) [] = refl
length-absorb (c ∷ cs) (b ∷ rest) = omega (arith, length-absorb cs rest)
