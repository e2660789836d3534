-- ===== src/Ocb/Exact.antt =====
-- internal/ocb/ocb.go: `Open` accepts exactly what `Seal` puts out.
use gosh.Base.{
  ◌-◌, ◌≤◌, [], ◌++◌, Bytes, length, take, drop, equal, equal_iff, ok, ok_inj, passed, not_short,
  ltb, ◌==◌, ◌≡◌, ◌↔◌, sym, ap, ◌∙◌, arith, take-append-drop, length-drop,
}
use gosh.Ocb.Cipher.{Cipher, open_text, opened, seal, rest_out, rest_offset, rest_checksum, tag}
use gosh.Ocb.Lengths.{IsKeyed}
use gosh.Ocb.Opens.{open_text-append, opening, seal_eq, open_text-sealed, seal-opened}

nonce_of_open :
    (c : Cipher) (nonce ct : Bytes) {text : Bytes}
    → open_text c [] nonce ct ≡ ok text
    → (length nonce ≡ 12) × (16 ≤ length ct)
unfolding open_text
nonce_of_open c nonce ct e =
    let (right, long) = passed _ (length nonce == 12) e in
    let (short, more) = not_short _ (ltb (length ct) 16) long in (ground arith, ground arith)

nonce_of_seal :
    (c : Cipher) (nonce text : Bytes) {ct : Bytes}
    → seal c [] nonce text ≡ ok ct
    → length nonce ≡ 12
unfolding seal
nonce_of_seal c nonce text e =
    let (right, sealed_text) = passed _ (length nonce == 12) e in ground arith

-- `Open` of a text with a tag behind it.
opened_ok :
    (c : Cipher) (nonce body given text : Bytes)
    → IsKeyed c
    → length nonce ≡ 12
    → length given ≡ 16
    → open_text c [] nonce (body ++ given) ≡ ok text
    → seal c [] nonce text ≡ ok (body ++ given)
opened_ok c nonce body given text k h t e =
    let b = opening c nonce body k h in
    let run : opened c [] given b ≡ ok text =
      sym (open_text-append c [] nonce body given h t) ∙ e in
    let (same, whole) =
      passed _ (equal (tag c (rest_checksum b.checksum (rest_out c b)) (rest_offset c b)) given)
        run in
    ap (seal c [] nonce) (sym (ok_inj whole))
    ∙ seal_eq c nonce (b.out ++ rest_out c b) k h []
    ∙ ap ok (seal-opened c nonce body k h given ((equal_iff _ _).0 same))

-- `Open` gives a text exactly when `Seal` of it gives the ciphertext.
pub open_text_iff :
    (c : Cipher) (nonce text ct : Bytes)
    → IsKeyed c
    → (open_text c [] nonce ct ≡ ok text) ↔ (seal c [] nonce text ≡ ok ct)
open_text_iff c nonce text ct k = (
  λ e.
      let (h, long) = nonce_of_open c nonce ct e in
      let n = length ct - 16 in
      let whole : take n ct ++ drop n ct ≡ ct = take-append-drop n ct in
      let size : length (drop n ct) ≡ 16 = omega (arith, length-drop n ct) in
      opened_ok c nonce (take n ct) (drop n ct) text k h size (ap (open_text c [] nonce) whole ∙ e)
      ∙ ap ok whole,
  λ e.
      let h = nonce_of_seal c nonce text e in
      ap (open_text c [] nonce) (ok_inj (sym e ∙ seal_eq c nonce text k h []))
      ∙ open_text-sealed c nonce text k h [],
)
