-- ===== src/Crypto/Sealing.antt =====
-- internal/crypto/session.go: `NewSession`, and the cipher of internal/ocb as the cipher of a session.
-- crypto/aes is a parameter.
use gosh.Base.{
  [], Bytes, IsU64, length, ◌≡◌, refl, ap, Result, ok, err, ◌>>=◌, Option, some, ◌==◌, true, arith,
}
use gosh.Ocb.Block.{Block, IsBlock}
use gosh.Ocb.Cipher.{OcbError, new, new_with, seal, open_text}
use gosh.Ocb.Lengths.{IsKeyed, new_with-IsKeyed}
use gosh.Ocb.Opens.{open_text-seal}
use gosh.Crypto.Session.{
  CryptoError, ocb_error, Cipher, IsCipher, Message, encrypt, decrypt, decrypt-encrypt,
}

abbrev pub from_ocb {ℓ} : {A : Type ℓ} → Result OcbError A → Result CryptoError A
from_ocb (ok a) = ok a
from_ocb (err e) = err (ocb_error e)

abbrev pub ocb_cipher : gosh.Ocb.Cipher.Cipher → Cipher
ocb_cipher c = record {
  seal = λ nonce text. from_ocb (seal c [] nonce text);
  open_sealed = λ nonce sealed. from_ocb (open_text c [] nonce sealed);
}

-- `aes` is `aes.NewCipher`.
unfoldable pub new_session : (Bytes → Option Block) → Bytes → Result OcbError Cipher
new_session aes key = do c ← new aes key; ok (ocb_cipher c)

-- `aes.NewCipher` takes keys of 16 bytes.
pub record IsAes (aes : Bytes → Option Block) : Type 0 where
  pub keyed : (key : Bytes) → length key ≡ 16 → (b : Block) × (aes key ≡ some b) × IsBlock b

ocb_cipher-IsCipher : (c : gosh.Ocb.Cipher.Cipher) → IsKeyed c → IsCipher (ocb_cipher c)
ocb_cipher-IsCipher c k = record {
  seal-open = λ nonce text h.
      let (sealed, s, size, o) = open_text-seal c [] nonce text k h in
      (sealed, ap from_ocb s, size, ap from_ocb o);
}

new_session-IsCipher :
    (aes : Bytes → Option Block) (key : Bytes)
    → IsAes aes
    → length key ≡ 16
    → (c : Cipher) × (new_session aes key ≡ ok c) × IsCipher c
unfolding new_session new
new_session-IsCipher aes key h n =
    let (b, e, lawful) = h.keyed key n in
    let right : (length key == 16) ≡ true = ground arith in
    (
      ocb_cipher (new_with b),
      rw (right, e) refl,
      ocb_cipher-IsCipher (new_with b) (new_with-IsKeyed b lawful),
    )

-- Under a key of 16 bytes a session starts, and a message whose nonce is a uint64 is encrypted by it
-- into a datagram that it decrypts to that message.
pub decrypt-new_session :
    (aes : Bytes → Option Block) (key : Bytes) (m : Message)
    → IsAes aes
    → length key ≡ 16
    → IsU64 m.nonce_val
    → (c : Cipher) × (new_session aes key ≡ ok c)
      × ((b : Bytes) × (encrypt c m ≡ ok b) × (decrypt c b ≡ ok m))
decrypt-new_session aes key m h n u =
    let (c, start, lawful) = new_session-IsCipher aes key h n in
    let (b, e, front, d) = decrypt-encrypt c m lawful u in (c, start, (b, e, d))
