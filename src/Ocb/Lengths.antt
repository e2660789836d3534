-- ===== src/Ocb/Lengths.antt =====
-- internal/ocb/ocb.go: the offsets are blocks, and the loops keep the number of bytes.
use gosh.Base.{
  inr, inl, ◌==◌, Bool-cases, ap, ℕ, zero, suc, ◌+◌, ◌-◌, ◌/◌, ◌%◌, ◌≤◌, ◌<◌, bit_and, [], ◌∷◌,
  Bytes, length, take, drop, replicate, length-append, length-take, length-drop, length-replicate,
  ◌≡◌, refl, ◌∙◌, arith,
}
use gosh.Ocb.Block.{
  xor_twice, Block, IsBlock, xor, double, block_at, length-xor, length-double,
  length-block_at-doubles, trailing_zeros,
}
use gosh.Base.Bits.{bit_and_mask}
use gosh.Ocb.Cipher.{
  Cipher, new_with, padded, bottom, top, stretch, last, shift_loop, initial_offset, next_offset,
  seal_block, open_block,
}

-- A cipher over a block cipher, with its precomputed blocks.
pub record IsKeyed (c : Cipher) : Type 0 where
  pub lawful : IsBlock c.block
  pub length-l_star : length c.l_star ≡ 16
  pub length-l_dollar : length c.l_dollar ≡ 16
  pub length-l : (k : ℕ) → length (block_at c.l k) ≡ 16

pub new_with-IsKeyed : (b : Block) → IsBlock b → IsKeyed (new_with b)
new_with-IsKeyed b h =
    let star : length (b.encrypt (replicate 16 0)) ≡ 16 = h.length-encrypt (replicate 16 0) refl in
    record {
      lawful = h;
      length-l_star = star;
      length-l_dollar = length-double (b.encrypt (replicate 16 0)) ∙ star;
      length-l = λ k.
          length-block_at-doubles 32 (double (b.encrypt (replicate 16 0))) k
            (length-double (b.encrypt (replicate 16 0)) ∙ star);
    }

length-shift_loop : (n bits : ℕ) (s : Bytes) → n < length s → length (shift_loop n bits s) ≡ n
unfolding shift_loop
length-shift_loop zero bits s h = refl
length-shift_loop (suc n) bits [] h = absurd (omega arith)
length-shift_loop (suc n) bits (x ∷ []) h = absurd (omega arith)
length-shift_loop (suc n) bits (x ∷ y ∷ s) h =
    omega (arith, length-shift_loop n bits (y ∷ s) (omega arith))

length-padded : (nonce : Bytes) → length nonce ≡ 12 → length (padded nonce) ≡ 16
length-padded nonce h = omega (
  arith,
  length-append (replicate (15 - length nonce) 0) (1 ∷ nonce),
  length-replicate {A = ℕ} (15 - length nonce) 0,
)

length-top : (nonce : Bytes) → length nonce ≡ 12 → length (top nonce) ≡ 16
length-top nonce h = omega (
  arith,
  length-append (take 15 (padded nonce)) (bit_and (last (padded nonce)) 0xC0 ∷ []),
  length-take 15 (padded nonce),
  length-padded nonce h,
)

length-stretch : (k : Bytes) → length k ≡ 16 → length (stretch k) ≡ 24
length-stretch k h = omega (
  arith,
  length-append k (xor (take 8 k) (take 8 (drop 1 k))),
  length-xor (take 8 k) (take 8 (drop 1 k))
      (omega (arith, length-take 8 k, length-take 8 (drop 1 k), length-drop 1 k)),
  length-take 8 k,
)

bottom-lt : (nonce : Bytes) → bottom nonce < 64
bottom-lt nonce = omega (arith, bit_and_mask 6 (last (padded nonce)))

pub length-initial_offset :
    (c : Cipher) (nonce : Bytes)
    → IsKeyed c
    → length nonce ≡ 12
    → length (initial_offset c nonce) ≡ 16
unfolding initial_offset
length-initial_offset c nonce k h =
    let whole = stretch (c.block.encrypt (top nonce)) in
    let s = drop (bottom nonce / 8) whole in
    let size : 17 ≤ length s = omega (
      arith,
      length-drop (bottom nonce / 8) whole,
      length-stretch (c.block.encrypt (top nonce))
          (k.lawful.length-encrypt (top nonce) (length-top nonce h)),
      bottom-lt nonce,
    ) in
    elim (Bool-cases (bottom nonce % 8 == 0)) [
      | inl e ↦ rw e (omega (arith, length-take 16 s, size))
      | inr e ↦ rw e (length-shift_loop 16 (bottom nonce % 8) s (omega (arith, size)))
    ]

pub length-next_offset :
    (c : Cipher) (i : ℕ) (offset : Bytes)
    → IsKeyed c
    → length offset ≡ 16
    → length (next_offset c i offset) ≡ 16
unfolding next_offset
length-next_offset c i offset k h = omega (
  arith,
  length-xor offset (block_at c.l (trailing_zeros 64 (i + 1)))
      (omega (arith, k.length-l (trailing_zeros 64 (i + 1)))),
)

-- Sealing and opening a block undo each other.
module _ (c : Cipher) (offset p : Bytes) (k : IsKeyed c) (o : length offset ≡ 16)
    (h : length p ≡ 16) where
  length-masked : length (xor p offset) ≡ 16
  length-masked = omega (arith, length-xor p offset (omega arith))

  pub length-seal_block : length (seal_block c offset p) ≡ 16
  length-seal_block = omega (
    arith,
    k.lawful.length-encrypt (xor p offset) length-masked,
    length-xor (c.block.encrypt (xor p offset)) offset
        (omega (arith, k.lawful.length-encrypt (xor p offset) length-masked)),
  )

  pub length-open_block : length (open_block c offset p) ≡ 16
  length-open_block = omega (
    arith,
    k.lawful.length-decrypt (xor p offset) length-masked,
    length-xor (c.block.decrypt (xor p offset)) offset
        (omega (arith, k.lawful.length-decrypt (xor p offset) length-masked)),
  )

  pub open_block-seal_block : open_block c offset (seal_block c offset p) ≡ p
  open_block-seal_block =
      let sealed = c.block.encrypt (xor p offset) in
      let size : length sealed ≤ length offset =
        omega (arith, k.lawful.length-encrypt (xor p offset) length-masked) in
      ap (λ x. xor (c.block.decrypt x) offset) (xor_twice sealed offset size)
      ∙ ap (λ x. xor x offset) (k.lawful.decrypt-encrypt (xor p offset) length-masked)
      ∙ xor_twice p offset (omega arith)

  pub seal_block-open_block : seal_block c offset (open_block c offset p) ≡ p
  seal_block-open_block =
      let plain = c.block.decrypt (xor p offset) in
      let size : length plain ≤ length offset =
        omega (arith, k.lawful.length-decrypt (xor p offset) length-masked) in
      ap (λ x. xor (c.block.encrypt x) offset) (xor_twice plain offset size)
      ∙ ap (λ x. xor x offset) (k.lawful.encrypt-decrypt (xor p offset) length-masked)
      ∙ xor_twice p offset (omega arith)
