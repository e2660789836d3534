-- ===== src/Crypto/Key.antt =====
-- internal/crypto/session.go: `Base64Key`, `ParseBase64Key` and `String`. encoding/base64 is a
-- parameter.
use gosh.Base.{
  passed, [], ◌∷◌, ◌++◌, Bytes, IsBytes, length, take, replicate, equal, equal_iff, equal_refl,
  true, not, ◌==◌, if◌then◌else◌, Option, none, some, ◌≡◌, ◌↔◌, refl, sym, ap, ◌∙◌, Result, ok, err,
  ok_inj, arith, take-append_of_length,
}

pub data KeyError : Type 0 where
  key_text_length : KeyError
  invalid_base64 : KeyError
  non_canonical : KeyError

-- `base64.StdEncoding`: decoding refuses a text that no bytes are encoded as.
pub record Base64 : Type 0 where
  pub encode : Bytes → Bytes
  pub decode : Bytes → Option Bytes

abbrev padding : Bytes
padding = b'=' ∷ b'=' ∷ []

-- Sixteen bytes are encoded in 24 characters, of which two are padding, and decoded again.
pub record IsBase64 (e : Base64) : Type 0 where
  pub encode-key :
      (k : Bytes)
      → IsBytes k
      → length k ≡ 16
      → (s : Bytes) × (length s ≡ 22) × (e.encode k ≡ s ++ padding)
  pub decode-encode : (k : Bytes) → IsBytes k → length k ≡ 16 → e.decode (e.encode k) ≡ some k

-- `copy(k[:], b)` into the 16 zeros of a new key.
abbrev copy_key : Bytes → Bytes
copy_key b = take 16 (b ++ replicate 16 0)

-- `String`
abbrev pub key_text : Base64 → Bytes → Bytes
key_text e k = take 22 (e.encode k)

abbrev canonical : Base64 → Bytes → Bytes → Result KeyError Bytes
canonical e s k = if not (equal (key_text e k) s) then err non_canonical else ok k

abbrev decoded_key : Base64 → Bytes → Option Bytes → Result KeyError Bytes
decoded_key e s none = err invalid_base64
decoded_key e s (some b) = canonical e s (copy_key b)

unfoldable pub parse_base64_key : Base64 → Bytes → Result KeyError Bytes
parse_base64_key e s =
    if not (length s == 22) then err key_text_length else decoded_key e s (e.decode (s ++ padding))

decoded_key-eq-ok :
    (e : Base64) (s : Bytes) (r : Option Bytes) {key : Bytes}
    → decoded_key e s r ≡ ok key
    → key_text e key ≡ s
decoded_key-eq-ok e s none h = absurd cc
decoded_key-eq-ok e s (some b) h =
    let (same, k) = passed _ (equal (key_text e (copy_key b)) s) h in
    ap (key_text e) (sym (ok_inj k)) ∙ (equal_iff _ _).0 same

decoded_key-decode :
    (e : Base64) (key : Bytes)
    → IsBase64 e
    → IsBytes key
    → length key ≡ 16
    → parse_base64_key e (key_text e key) ≡ ok key
unfolding parse_base64_key
decoded_key-decode e key l b n =
    let (s, size, text) = l.encode-key key b n in
    let shown : key_text e key ≡ s = ap (take 22) text ∙ take-append_of_length 22 s padding size in
    let right : (length (key_text e key) == 22) ≡ true = ground (arith, ap length shown) in
    let whole : e.decode (key_text e key ++ padding) ≡ some key =
      ap (λ x. e.decode (x ++ padding)) shown ∙ ap e.decode (sym text) ∙ l.decode-encode key b n in
    let copied : copy_key key ≡ key = take-append_of_length 16 key (replicate 16 0) n in
    rw (right, whole, copied, equal_refl (key_text e key)) refl

-- A key of 16 bytes is parsed from a text exactly when it is printed as that text.
pub parse_base64_key_iff :
    (e : Base64) (s key : Bytes)
    → IsBase64 e
    → IsBytes key
    → length key ≡ 16
    → (parse_base64_key e s ≡ ok key) ↔ (key_text e key ≡ s)
unfolding parse_base64_key
parse_base64_key_iff e s key l b n = (
  λ h. decoded_key-eq-ok e s (e.decode (s ++ padding)) (passed _ (length s == 22) h).1,
  λ h. ap (parse_base64_key e) (sym h) ∙ decoded_key-decode e key l b n,
)

pub length-key_text :
    (e : Base64) (key : Bytes)
    → IsBase64 e
    → IsBytes key
    → length key ≡ 16
    → length (key_text e key) ≡ 22
length-key_text e key l b n =
    let (s, size, text) = l.encode-key key b n in
    ap length (ap (take 22) text ∙ take-append_of_length 22 s padding size) ∙ size
