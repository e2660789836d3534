-- ===== src/Crypto/Tests.antt =====
-- Runs of internal/crypto.
use gosh.Base.{
  some, ◌↔◌, err, append_assoc, take-append_of_length, [], ◌∷◌, ◌++◌, Bytes, length, take,
  replicate, ◌-◌, ◌≡◌, refl, ap, ◌∙◌, ok, arith, length-append, take-append_length,
}
use gosh.Ocb.Block.{Block, IsBlock, xor, xor_twice, length-xor}
use gosh.Crypto.Key.{
  Base64, IsBase64, parse_base64_key, key_text, key_text_length, non_canonical,
  parse_base64_key_iff,
}
use gosh.Crypto.Sealing.{IsAes, new_session, decrypt-new_session}
use gosh.Crypto.Session.{Cipher, encrypt, decrypt}

abbrev adder : Block
adder = record {
  encrypt = λ x. xor x (replicate 16 0x5A);
  decrypt = λ x. xor x (replicate 16 0x5A);
}

adder-IsBlock : IsBlock adder
adder-IsBlock = record {
  length-encrypt = λ x h. length-xor x (replicate 16 0x5A) (omega arith) ∙ h;
  length-decrypt = λ x h. length-xor x (replicate 16 0x5A) (omega arith) ∙ h;
  decrypt-encrypt = λ x h. xor_twice x (replicate 16 0x5A) (omega arith);
  encrypt-decrypt = λ x h. xor_twice x (replicate 16 0x5A) (omega arith);
}

adder-IsAes : IsAes (λ key. some adder)
adder-IsAes = record { keyed = λ key h. (adder, refl, adder-IsBlock) }

abbrev key : Bytes
key = replicate 16 7

decrypt-new_session_example :
    (c : Cipher) × (new_session (λ key. some adder) key ≡ ok c)
    × ((b : Bytes) × (encrypt c (record { nonce_val = 258; text = 7 ∷ 8 ∷ [] }) ≡ ok b)
        × (decrypt c b ≡ ok (record { nonce_val = 258; text = 7 ∷ 8 ∷ [] })))
decrypt-new_session_example =
    decrypt-new_session (λ key. some adder) key (record { nonce_val = 258; text = 7 ∷ 8 ∷ [] })
      adder-IsAes refl (omega arith)

-- An encoding of 16 bytes in 24 characters, of which the first 16 are the bytes.
abbrev plain_encoding : Base64
plain_encoding = record {
  encode = λ k. (k ++ replicate 6 b'A') ++ (b'=' ∷ b'=' ∷ []);
  decode = λ s. some (take 16 s);
}

plain_encoding-IsBase64 : IsBase64 plain_encoding
plain_encoding-IsBase64 = record {
  encode-key =
      λ k b h. (k ++ replicate 6 b'A', omega (arith, length-append k (replicate 6 b'A')), refl);
  decode-encode = λ k b h.
      ap (λ s. some (take 16 s)) (append_assoc k (replicate 6 b'A') (b'=' ∷ b'=' ∷ []))
      ∙ ap some (take-append_of_length 16 k (replicate 6 b'A' ++ (b'=' ∷ b'=' ∷ [])) h);
}

test_long_key : parse_base64_key plain_encoding (replicate 23 b'A') ≡ err key_text_length
unfolding parse_base64_key gosh.Base.equal
test_long_key = refl

test_non_canonical : parse_base64_key plain_encoding (replicate 22 b'B') ≡ err non_canonical
unfolding parse_base64_key gosh.Base.equal
test_non_canonical = refl

parse_base64_key_iff_example :
    (parse_base64_key plain_encoding (key ++ replicate 6 b'A') ≡ ok key)
    ↔ (key_text plain_encoding key ≡ key ++ replicate 6 b'A')
parse_base64_key_iff_example =
    parse_base64_key_iff plain_encoding (key ++ replicate 6 b'A') key plain_encoding-IsBase64
      (ground arith) refl
