-- ===== src/Ocb/Cipher.antt =====
-- internal/ocb/ocb.go: `Cipher`, `New`, `Seal` and `Open`.
use gosh.Base.{
  ℕ, zero, suc, ◌+◌, ◌-◌, ◌*◌, ◌/◌, ◌%◌, ◌^◌, bit_and, bit_or, List, [], ◌∷◌, ◌++◌, Bytes, length,
  take, drop, replicate, equal, not, ltb, ◌==◌, if◌then◌else◌, Option, none, some, Result, ok, err,
}
use gosh.Ocb.Block.{Block, xor, double, doubles, trailing_zeros, block_at, absorb}

abbrev pub tag_len : ℕ
tag_len = 16

abbrev pub nonce_len : ℕ
nonce_len = 12

pub data OcbError : Type 0 where
  key_length : OcbError
  bad_key : OcbError
  nonce_length : OcbError
  open_failed : OcbError

pub record Cipher : Type 0 where
  pub block : Block
  pub l_star : Bytes
  pub l_dollar : Bytes
  pub l : List Bytes

abbrev pub new_with : Block → Cipher
new_with block =
    let l_star = block.encrypt (replicate 16 0) in
    let l_dollar = double l_star in
    record { block = block; l_star = l_star; l_dollar = l_dollar; l = doubles 32 l_dollar }

abbrev new_block : Option Block → Result OcbError Cipher
new_block none = err bad_key
new_block (some block) = ok (new_with block)

-- `aes` is `aes.NewCipher`.
unfoldable pub new : (Bytes → Option Block) → Bytes → Result OcbError Cipher
unfolding double doubles
new aes key = if not (length key == 16) then err key_length else new_block (aes key)

-- `n[blockSize-1]`
unfoldable pub last : Bytes → ℕ
last [] = 0
last (b ∷ []) = b
last (b ∷ c ∷ bs) = last (c ∷ bs)

-- The nonce in a block; 0x3F is cut off it by a mask of the other two bits of a byte.
abbrev pub padded : Bytes → Bytes
padded nonce = replicate (15 - length nonce) 0 ++ 1 ∷ nonce

abbrev pub bottom : Bytes → ℕ
bottom nonce = bit_and (last (padded nonce)) 0x3F

abbrev pub top : Bytes → Bytes
top nonce = take 15 (padded nonce) ++ bit_and (last (padded nonce)) 0xC0 ∷ []

-- The loop that shifts the stretch by the bits left over.
unfoldable pub shift_loop : ℕ → ℕ → Bytes → Bytes
shift_loop zero bits s = []
shift_loop (suc n) bits (x ∷ y ∷ s) =
    bit_or (x * 2 ^ bits % 256) (y / 2 ^ (8 - bits)) ∷ shift_loop n bits (y ∷ s)
shift_loop (suc n) bits _ = []

abbrev pub stretch : Bytes → Bytes
stretch ktop = ktop ++ xor (take 8 ktop) (take 8 (drop 1 ktop))

unfoldable pub initial_offset : Cipher → Bytes → Bytes
unfolding last shift_loop xor
initial_offset c nonce =
    let s = drop (bottom nonce / 8) (stretch (c.block.encrypt (top nonce))) in
    if bottom nonce % 8 == 0 then take 16 s else shift_loop 16 (bottom nonce % 8) s

-- The next offset, at the block numbered `i` from 0.
unfoldable pub next_offset : Cipher → ℕ → Bytes → Bytes
unfolding xor trailing_zeros block_at
next_offset c i offset = xor offset (block_at c.l (trailing_zeros 64 (i + 1)))

-- What the loop over whole blocks leaves: the bytes put out, the offset, the checksum and the bytes
-- behind the blocks.
pub record Blocks : Type 0 where
  pub out : Bytes
  pub offset : Bytes
  pub checksum : Bytes
  pub rest : Bytes

-- One block: what is put out for the bytes `p`.
abbrev pub seal_block : Cipher → Bytes → Bytes → Bytes
seal_block c offset p = xor (c.block.encrypt (xor p offset)) offset

abbrev pub open_block : Cipher → Bytes → Bytes → Bytes
open_block c offset p = xor (c.block.decrypt (xor p offset)) offset

abbrev pub put_before : Bytes → Blocks → Blocks
put_before out b = record b { out = out ++ b.out }

-- The loops of `Seal` and `Open`, on the blocks left, from the block numbered `i` on.
unfoldable pub seal_blocks : Cipher → ℕ → ℕ → Bytes → Bytes → Bytes → Blocks
unfolding next_offset
seal_blocks c zero i offset checksum text = record {
  out = [];
  offset = offset;
  checksum = checksum;
  rest = text;
}
seal_blocks c (suc full) i offset checksum text =
    let offset' = next_offset c i offset in
    let p = take 16 text in
    put_before (seal_block c offset' p)
      (seal_blocks c full (i + 1) offset' (xor checksum p) (drop 16 text))

unfoldable pub open_blocks : Cipher → ℕ → ℕ → Bytes → Bytes → Bytes → Blocks
unfolding next_offset
open_blocks c zero i offset checksum text = record {
  out = [];
  offset = offset;
  checksum = checksum;
  rest = text;
}
open_blocks c (suc full) i offset checksum text =
    let offset' = next_offset c i offset in
    let p = open_block c offset' (take 16 text) in
    put_before p (open_blocks c full (i + 1) offset' (xor checksum p) (drop 16 text))

-- The bytes behind the whole blocks, which are encrypted and decrypted alike; the checksum is over
-- the plain ones.
abbrev pub rest_offset : Cipher → Blocks → Bytes
rest_offset c b = if ltb 0 (length b.rest) then xor b.offset c.l_star else b.offset

abbrev pub rest_out : Cipher → Blocks → Bytes
rest_out c b = if ltb 0 (length b.rest) then xor b.rest (c.block.encrypt (rest_offset c b)) else []

abbrev pub rest_checksum : Bytes → Bytes → Bytes
rest_checksum checksum plain = if ltb 0 (length plain) then absorb checksum plain else checksum

abbrev pub tag : Cipher → Bytes → Bytes → Bytes
tag c checksum offset = c.block.encrypt (xor (xor checksum offset) c.l_dollar)

abbrev pub sealed : Cipher → Blocks → Bytes
sealed c b = b.out ++ (rest_out c b ++ tag c (rest_checksum b.checksum b.rest) (rest_offset c b))

unfoldable pub seal : Cipher → Bytes → Bytes → Bytes → Result OcbError Bytes
unfolding initial_offset seal_blocks absorb
seal c dst nonce plaintext =
    if not (length nonce == nonce_len)
    then err nonce_length
    else ok (
        dst
        ++ sealed c (
            seal_blocks c (length plaintext / 16) 0 (initial_offset c nonce) (replicate 16 0)
              plaintext))

abbrev pub opened : Cipher → Bytes → Bytes → Blocks → Result OcbError Bytes
opened c dst given b =
    if not (equal (tag c (rest_checksum b.checksum (rest_out c b)) (rest_offset c b)) given)
    then err open_failed
    else ok (dst ++ (b.out ++ rest_out c b))

unfoldable pub open_text : Cipher → Bytes → Bytes → Bytes → Result OcbError Bytes
unfolding initial_offset open_blocks absorb
open_text c dst nonce ciphertext =
    if not (length nonce == nonce_len)
    then err nonce_length
    else if ltb (length ciphertext) tag_len
    then err open_failed
    else (let body = take (length ciphertext - tag_len) ciphertext in
        opened c dst (drop (length ciphertext - tag_len) ciphertext)
          (open_blocks c (length body / 16) 0 (initial_offset c nonce) (replicate 16 0) body))
