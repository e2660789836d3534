-- ===== src/Crypto/Session.antt =====
-- internal/crypto/session.go: `Message`, `Encrypt` and `Decrypt`, over the cipher that a session
-- holds.
use gosh.Base.{
  sym, ℕ, ◌+◌, ◌≤◌, ◌++◌, Bytes, IsU64, length, take, drop, replicate, length-append,
  take-append_length, drop-append_length, false, ltb, if◌then◌else◌, ◌≡◌, refl, ap, ◌∙◌, Result, ok,
  err, ◌>>=◌, arith,
}
use gosh.Ocb.Cipher.{OcbError}
use gosh.Base.BigEndian.{put_uint64, uint64, put_uint32, uint64-put_uint64}

pub data CryptoError : Type 0 where
  short_datagram : CryptoError
  ocb_error : OcbError → CryptoError

-- What a session calls of its cipher: `Seal` and `Open` on a nonce and a text, with nothing to append
-- to.
pub record Cipher : Type 0 where
  pub seal : Bytes → Bytes → Result CryptoError Bytes
  pub open_sealed : Bytes → Bytes → Result CryptoError Bytes

abbrev pub tag_len : ℕ
tag_len = 16

pub record Message : Type 0 where
  pub nonce_val : ℕ
  pub text : Bytes

abbrev pub nonce_bytes : ℕ → Bytes
nonce_bytes val = replicate 4 0 ++ put_uint64 val

unfoldable pub encrypt : Cipher → Message → Result CryptoError Bytes
encrypt c m = do
  sealed ← c.seal (nonce_bytes m.nonce_val) m.text
  ok (drop 4 (nonce_bytes m.nonce_val) ++ sealed)

unfoldable pub decrypt : Cipher → Bytes → Result CryptoError Message
decrypt c b = if ltb (length b) (8 + tag_len) then err short_datagram else (do
  text ← c.open_sealed (nonce_bytes (uint64 (take 8 b))) (drop 8 b)
  ok (record { nonce_val = uint64 (take 8 b); text = text }))

-- What the session relies on in its cipher: a 12-byte nonce is taken, the sealed text has the tag
-- behind it, and the same nonce opens it.
pub record IsCipher (c : Cipher) : Type 0 where
  pub seal-open :
      (n text : Bytes)
      → length n ≡ 12
      → (sealed : Bytes) × (c.seal n text ≡ ok sealed)
        × (length sealed ≡ length text + tag_len)
        × (c.open_sealed n sealed ≡ ok text)

length-put_uint64 : (v : ℕ) → length (put_uint64 v) ≡ 8
unfolding put_uint64 put_uint32
length-put_uint64 v = refl

length-nonce_bytes : (v : ℕ) → length (nonce_bytes v) ≡ 12
length-nonce_bytes v = omega (arith, length-put_uint64 v)

decrypt-sealed :
    (c : Cipher) (v : ℕ) (text sealed : Bytes)
    → IsU64 v
    → tag_len ≤ length sealed
    → c.open_sealed (nonce_bytes v) sealed ≡ ok text
    → decrypt c (put_uint64 v ++ sealed) ≡ ok (record { nonce_val = v; text = text })
unfolding decrypt
decrypt-sealed c v text sealed u s e =
    let long : ltb (length (put_uint64 v ++ sealed)) (8 + tag_len) ≡ false =
      ground (arith, length-append (put_uint64 v) sealed, length-put_uint64 v) in
    let front : take 8 (put_uint64 v ++ sealed) ≡ put_uint64 v =
      ap (λ n. take n (put_uint64 v ++ sealed)) (sym (length-put_uint64 v))
      ∙ take-append_length (put_uint64 v) sealed in
    let behind : drop 8 (put_uint64 v ++ sealed) ≡ sealed =
      ap (λ n. drop n (put_uint64 v ++ sealed)) (sym (length-put_uint64 v))
      ∙ drop-append_length (put_uint64 v) sealed in
    rw (long, front, behind, uint64-put_uint64 v u, e) refl

-- A message whose nonce is a uint64 is sealed into a datagram with the nonce in front, and that opens
-- to the message.
pub decrypt-encrypt :
    (c : Cipher) (m : Message)
    → IsCipher c
    → IsU64 m.nonce_val
    → (b : Bytes) × (encrypt c m ≡ ok b)
      × (take 8 b ≡ put_uint64 m.nonce_val)
      × (decrypt c b ≡ ok m)
unfolding encrypt
decrypt-encrypt c m h u =
    let (sealed, e, size, o) =
      h.seal-open (nonce_bytes m.nonce_val) m.text (length-nonce_bytes m.nonce_val) in
    (
      put_uint64 m.nonce_val ++ sealed,
      rw e refl,
      ap (λ n. take n (put_uint64 m.nonce_val ++ sealed)) (sym (length-put_uint64 m.nonce_val))
          ∙ take-append_length (put_uint64 m.nonce_val) sealed,
      decrypt-sealed c m.nonce_val m.text sealed u (omega (arith, size)) o,
    )
