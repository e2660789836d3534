-- ===== src/Ocb/Opens.antt =====
-- internal/ocb/ocb.go: `Open` against `Seal`.
use gosh.Base.{
  drop-append_length, take-append_length, ◌+◌, ◌-◌, ◌*◌, ◌/◌, ◌≤◌, [], ◌++◌, Bytes, length, take,
  drop, replicate, append_assoc, length-append, length-drop, take-append-drop, true, false, ltb,
  ◌==◌, ◌≡◌, refl, sym, ap, ◌∙◌, ok, arith,
}
use gosh.Ocb.Cipher.{
  Cipher, Blocks, initial_offset, seal_blocks, open_blocks, rest_offset, rest_out, rest_checksum,
  tag, sealed, seal, opened, open_text,
}
use gosh.Ocb.Lengths.{IsKeyed, length-initial_offset}
use gosh.Ocb.Loops.{
  length-sealed_checksum, seal_blocks-rest, open_blocks-rest, open_blocks-seal_blocks,
  seal_blocks-open_blocks,
}
use gosh.Ocb.Turns.{turned, length-tag, length-rest_out, opened-turned, sealed-turned}

-- `Open` on a text with a tag behind it.
pub open_text-append :
    (c : Cipher) (dst nonce body given : Bytes)
    → length nonce ≡ 12
    → length given ≡ 16
    → open_text c dst nonce (body ++ given)
      ≡ opened c dst given
          (open_blocks c (length body / 16) 0 (initial_offset c nonce) (replicate 16 0) body)
unfolding open_text
open_text-append c dst nonce body given h t =
    let right : (length nonce == 12) ≡ true = ground arith in
    let size : length (body ++ given) ≡ length body + 16 =
      omega (arith, length-append body given) in
    let long : ltb (length (body ++ given)) 16 ≡ false = ground arith in
    let cut : length (body ++ given) - 16 ≡ length body = omega arith in
    rw (right, long, cut, take-append_length body given, drop-append_length body given) refl

-- What the loops leave of a text that has a nonce of the right length.
module _ (c : Cipher) (nonce text : Bytes) (k : IsKeyed c) (h : length nonce ≡ 12) where
  start : length (initial_offset c nonce) ≡ 16
  start = length-initial_offset c nonce k h

  in_blocks : length text / 16 * 16 ≤ length text
  in_blocks = omega arith

  abbrev pub sealing : Blocks
  sealing = seal_blocks c (length text / 16) 0 (initial_offset c nonce) (replicate 16 0) text

  abbrev pub opening : Blocks
  opening = open_blocks c (length text / 16) 0 (initial_offset c nonce) (replicate 16 0) text

  sealing_rest :
      (sealing.rest ≡ drop (length text / 16 * 16) text)
      × (length sealing.out ≡ length text / 16 * 16)
      × (length sealing.offset ≡ 16)
  sealing_rest =
      seal_blocks-rest c (length text / 16) 0 (initial_offset c nonce) (replicate 16 0) text k start
        in_blocks

  few_sealing : length sealing.rest ≤ 16
  few_sealing = omega (arith, ap length sealing_rest.0, length-drop (length text / 16 * 16) text)

  length-sealing_out : length (sealing.out ++ rest_out c sealing) ≡ length text
  length-sealing_out = omega (
    arith,
    length-append sealing.out (rest_out c sealing),
    sealing_rest.1,
    length-rest_out c k sealing sealing_rest.2 few_sealing,
    ap length sealing_rest.0,
    length-drop (length text / 16 * 16) text,
  )

  whole_sealing : take (length text / 16 * 16) text ++ sealing.rest ≡ text
  whole_sealing =
      ap (λ r. take (length text / 16 * 16) text ++ r) sealing_rest.0
      ∙ take-append-drop (length text / 16 * 16) text

  size_of_tag :
      length (tag c (rest_checksum sealing.checksum sealing.rest) (rest_offset c sealing)) ≡ 16
  size_of_tag = length-tag c k sealing sealing_rest.2 few_sealing (
      length-sealed_checksum c (length text / 16) 0 (initial_offset c nonce) (replicate 16 0) text
        refl in_blocks)

  again_opened :
      open_blocks c
        (length (sealing.out ++ rest_out c sealing) / 16)
        0
        (initial_offset c nonce)
        (replicate 16 0)
        (sealing.out ++ rest_out c sealing)
      ≡ turned c sealing (take (length text / 16 * 16) text)
  again_opened =
      ap
        (λ n.
          open_blocks c (n / 16) 0 (initial_offset c nonce) (replicate 16 0)
            (sealing.out ++ rest_out c sealing))
        length-sealing_out
      ∙ open_blocks-seal_blocks c (length text / 16) 0 (initial_offset c nonce) (replicate 16 0)
          text (rest_out c sealing) k start in_blocks

  opening_rest :
      (opening.rest ≡ drop (length text / 16 * 16) text)
      × (length opening.out ≡ length text / 16 * 16)
      × (length opening.offset ≡ 16)
  opening_rest =
      open_blocks-rest c (length text / 16) 0 (initial_offset c nonce) (replicate 16 0) text k start
        in_blocks

  few_opening : length opening.rest ≤ 16
  few_opening = omega (arith, ap length opening_rest.0, length-drop (length text / 16 * 16) text)

  length-opening_out : length (opening.out ++ rest_out c opening) ≡ length text
  length-opening_out = omega (
    arith,
    length-append opening.out (rest_out c opening),
    opening_rest.1,
    length-rest_out c k opening opening_rest.2 few_opening,
    ap length opening_rest.0,
    length-drop (length text / 16 * 16) text,
  )

  whole_opening : take (length text / 16 * 16) text ++ opening.rest ≡ text
  whole_opening =
      ap (λ r. take (length text / 16 * 16) text ++ r) opening_rest.0
      ∙ take-append-drop (length text / 16 * 16) text

  again_sealed :
      seal_blocks c
        (length (opening.out ++ rest_out c opening) / 16)
        0
        (initial_offset c nonce)
        (replicate 16 0)
        (opening.out ++ rest_out c opening)
      ≡ turned c opening (take (length text / 16 * 16) text)
  again_sealed =
      ap
        (λ n.
          seal_blocks c (n / 16) 0 (initial_offset c nonce) (replicate 16 0)
            (opening.out ++ rest_out c opening))
        length-opening_out
      ∙ seal_blocks-open_blocks c (length text / 16) 0 (initial_offset c nonce) (replicate 16 0)
          text (rest_out c opening) k start in_blocks

  pub seal_eq : (dst : Bytes) → seal c dst nonce text ≡ ok (dst ++ sealed c sealing)
  unfolding seal
  seal_eq dst = let right : (length nonce == 12) ≡ true = ground arith in rw right refl

  length-sealed :
      length (
        (sealing.out ++ rest_out c sealing)
        ++ tag c (rest_checksum sealing.checksum sealing.rest) (rest_offset c sealing))
      ≡ length text + 16
  length-sealed = omega (
    arith,
    length-sealing_out,
    size_of_tag,
    length-append (sealing.out ++ rest_out c sealing)
        (tag c (rest_checksum sealing.checksum sealing.rest) (rest_offset c sealing)),
  )

  sealed_assoc :
      sealed c sealing
      ≡ (sealing.out ++ rest_out c sealing)
        ++ tag c (rest_checksum sealing.checksum sealing.rest) (rest_offset c sealing)
  sealed_assoc = sym (
      append_assoc sealing.out (rest_out c sealing)
        (tag c (rest_checksum sealing.checksum sealing.rest) (rest_offset c sealing)))

  pub open_text-sealed : (dst : Bytes) → open_text c dst nonce (sealed c sealing) ≡ ok (dst ++ text)
  open_text-sealed dst =
      let t = tag c (rest_checksum sealing.checksum sealing.rest) (rest_offset c sealing) in
      ap (open_text c dst nonce) sealed_assoc
      ∙ open_text-append c dst nonce (sealing.out ++ rest_out c sealing) t h size_of_tag
      ∙ ap (opened c dst t) again_opened
      ∙ opened-turned c k sealing sealing_rest.2 few_sealing dst (take (length text / 16 * 16) text)
      ∙ ap (λ x. ok (dst ++ x)) whole_sealing

  pub seal-opened :
      (given : Bytes)
      → tag c (rest_checksum opening.checksum (rest_out c opening)) (rest_offset c opening) ≡ given
      → sealed c (
          seal_blocks c
            (length (opening.out ++ rest_out c opening) / 16)
            0
            (initial_offset c nonce)
            (replicate 16 0)
            (opening.out ++ rest_out c opening))
        ≡ text ++ given
  seal-opened given e =
      ap (sealed c) again_sealed
      ∙ sealed-turned c k opening opening_rest.2 few_opening (take (length text / 16 * 16) text)
      ∙ ap (λ g. take (length text / 16 * 16) text ++ (opening.rest ++ g)) e
      ∙ sym (append_assoc (take (length text / 16 * 16) text) opening.rest given)
      ∙ ap (λ x. x ++ given) whole_opening

-- `Seal` of a text behind which it has what to append to, and `Open` of it.
pub open_text-seal :
    (c : Cipher) (dst nonce text : Bytes)
    → IsKeyed c
    → length nonce ≡ 12
    → (b : Bytes) × (seal c [] nonce text ≡ ok b)
      × (length b ≡ length text + 16)
      × (open_text c dst nonce b ≡ ok (dst ++ text))
open_text-seal c dst nonce text k h = (
  sealed c (sealing c nonce text k h),
  seal_eq c nonce text k h [],
  ap length (sealed_assoc c nonce text k h) ∙ length-sealed c nonce text k h,
  open_text-sealed c nonce text k h dst,
)
