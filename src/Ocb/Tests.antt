-- ===== src/Ocb/Tests.antt =====
-- internal/ocb/ocb.go: runs of `Seal` and `Open` with a block cipher that adds a key.
use gosh.Base.{[], ◌∷◌, ◌++◌, Bytes, replicate, some, ok, err, ◌≡◌, ◌↔◌, refl, ◌∙◌, arith}
use gosh.Ocb.Block.{Block, IsBlock, double, xor, xor_twice, length-xor}
use gosh.Ocb.Cipher.{Cipher, new_with, new, key_length, nonce_length, open_failed, seal, open_text}
use gosh.Ocb.Lengths.{IsKeyed, new_with-IsKeyed}
use gosh.Ocb.Exact.{open_text_iff}

abbrev key : Bytes
key = 0x13 ∷ 0x57 ∷ 0x9B ∷ 0xDF ∷ replicate 12 0xA5

-- The cipher of which encryption adds the key to a block.
abbrev adder : Block
adder = record { encrypt = λ x. xor x key; decrypt = λ x. xor x key }

adder-IsBlock : IsBlock adder
adder-IsBlock = record {
  length-encrypt = λ x h. length-xor x key (omega arith) ∙ h;
  length-decrypt = λ x h. length-xor x key (omega arith) ∙ h;
  decrypt-encrypt = λ x h. xor_twice x key (omega arith);
  encrypt-decrypt = λ x h. xor_twice x key (omega arith);
}

abbrev cipher : Cipher
cipher = new_with adder

cipher-IsKeyed : IsKeyed cipher
cipher-IsKeyed = new_with-IsKeyed adder adder-IsBlock

abbrev nonce : Bytes
nonce = replicate 4 0 ++ 1 ∷ 2 ∷ 3 ∷ 4 ∷ 5 ∷ 6 ∷ 7 ∷ 8 ∷ []

abbrev short_text : Bytes
short_text = 0x63 ∷ 0x64 ∷ []

abbrev text : Bytes
text = replicate 16 0x61 ++ (replicate 16 0x62 ++ 0x63 ∷ 0x64 ∷ [])

abbrev given : Bytes
given = 9 ∷ []

-- A key of the wrong length, a nonce of the wrong length, a text with no room for the tag.
test_new : new (λ k. some adder) (0 ∷ []) ≡ err key_length
unfolding new
test_new = refl

test_nonce : seal cipher [] given text ≡ err nonce_length
unfolding seal xor
test_nonce = refl

test_short : open_text cipher [] nonce given ≡ err open_failed
unfolding open_text xor
test_short = refl

abbrev short_sealed : Bytes
short_sealed =
    52 ∷ 255 ∷ 18 ∷ 80 ∷ 105 ∷ 26 ∷ 238 ∷ 238 ∷ 238 ∷ 239 ∷ 236 ∷ 237 ∷ 234 ∷ 235 ∷ 232 ∷ 233 ∷ 238
    ∷ 14 ∷ []

test_seal : seal cipher [] nonce short_text ≡ ok short_sealed
unfolding seal xor double
test_seal = refl

open_text_iff_example :
    (open_text cipher [] nonce short_sealed ≡ ok short_text)
    ↔ (seal cipher [] nonce short_text ≡ ok short_sealed)
open_text_iff_example = open_text_iff cipher nonce short_text short_sealed cipher-IsKeyed
