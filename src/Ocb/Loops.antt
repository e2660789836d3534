-- ===== src/Ocb/Loops.antt =====
-- internal/ocb/ocb.go: the loops over whole blocks of `Open` and of `Seal` undo each other.
use gosh.Base.{
  ℕ, zero, suc, ◌+◌, ◌*◌, ◌≤◌, ◌++◌, Bytes, length, take, drop, append_assoc, length-append,
  length-take, length-drop, take-append_of_length, drop-append_of_length, take-add, drop-add, ◌≡◌,
  refl, sym, ap, ◌∙◌, arith,
}
use gosh.Ocb.Block.{xor, length-xor}
use gosh.Ocb.Cipher.{
  Cipher, next_offset, seal_block, open_block, put_before, seal_blocks, open_blocks,
}
use gosh.Ocb.Lengths.{
  IsKeyed, length-next_offset, length-seal_block, length-open_block, open_block-seal_block,
  seal_block-open_block,
}

length-first_block :
    (full : ℕ) (text : Bytes) → suc full * 16 ≤ length text → length (take 16 text) ≡ 16
length-first_block full text h = omega (arith, length-take 16 text)

-- The bytes that the loops leave over, and the number of those that they put out.
pub seal_blocks-rest :
    (c : Cipher) (full i : ℕ) (offset checksum text : Bytes)
    → IsKeyed c
    → length offset ≡ 16
    → full * 16 ≤ length text
    → ((seal_blocks c full i offset checksum text).rest ≡ drop (full * 16) text)
      × (length (seal_blocks c full i offset checksum text).out ≡ full * 16)
      × (length (seal_blocks c full i offset checksum text).offset ≡ 16)
unfolding seal_blocks
seal_blocks-rest c zero i offset checksum text k o h = (refl, refl, o)
seal_blocks-rest c (suc full) i offset checksum text k o h =
    let offset' = next_offset c i offset in
    let p = take 16 text in
    let size : length p ≡ 16 = length-first_block full text h in
    let o' : length offset' ≡ 16 = length-next_offset c i offset k o in
    let (r, n, last) =
      seal_blocks-rest c full (i + 1) offset' (xor checksum p) (drop 16 text) k o'
        (omega (arith, length-drop 16 text)) in
    (
      r ∙ sym (drop-add 16 (full * 16) text) ∙ ap (λ m. drop m text) (omega arith),
      omega (
        arith,
        n,
        length-seal_block c offset' p k o' size,
        length-append (seal_block c offset' p)
            (seal_blocks c full (i + 1) offset' (xor checksum p) (drop 16 text)).out,
      ),
      last,
    )

pub length-sealed_checksum :
    (c : Cipher) (full i : ℕ) (offset checksum text : Bytes)
    → length checksum ≡ 16
    → full * 16 ≤ length text
    → length (seal_blocks c full i offset checksum text).checksum ≡ 16
unfolding seal_blocks
length-sealed_checksum c zero i offset checksum text s h = s
length-sealed_checksum c (suc full) i offset checksum text s h =
    length-sealed_checksum c full (i + 1) (next_offset c i offset) (xor checksum (take 16 text))
      (drop 16 text)
      (omega
        (arith, length-xor checksum (take 16 text) (omega (arith, length-first_block full text h))))
      (omega (arith, length-drop 16 text))

pub open_blocks-rest :
    (c : Cipher) (full i : ℕ) (offset checksum text : Bytes)
    → IsKeyed c
    → length offset ≡ 16
    → full * 16 ≤ length text
    → ((open_blocks c full i offset checksum text).rest ≡ drop (full * 16) text)
      × (length (open_blocks c full i offset checksum text).out ≡ full * 16)
      × (length (open_blocks c full i offset checksum text).offset ≡ 16)
unfolding open_blocks
open_blocks-rest c zero i offset checksum text k o h = (refl, refl, o)
open_blocks-rest c (suc full) i offset checksum text k o h =
    let offset' = next_offset c i offset in
    let p = open_block c offset' (take 16 text) in
    let size : length (take 16 text) ≡ 16 = length-first_block full text h in
    let o' : length offset' ≡ 16 = length-next_offset c i offset k o in
    let (r, n, last) =
      open_blocks-rest c full (i + 1) offset' (xor checksum p) (drop 16 text) k o'
        (omega (arith, length-drop 16 text)) in
    (
      r ∙ sym (drop-add 16 (full * 16) text) ∙ ap (λ m. drop m text) (omega arith),
      omega (
        arith,
        n,
        length-open_block c offset' (take 16 text) k o' size,
        length-append p (open_blocks c full (i + 1) offset' (xor checksum p) (drop 16 text)).out,
      ),
      last,
    )

-- One whole block in front of the rest of a text.
take-blocks :
    (full : ℕ) (text : Bytes)
    → take 16 text ++ take (full * 16) (drop 16 text) ≡ take (suc full * 16) text
take-blocks full text = sym (take-add 16 (full * 16) text) ∙ ap (λ m. take m text) (omega arith)

pub open_blocks-seal_blocks :
    (c : Cipher) (full i : ℕ) (offset checksum text tail : Bytes)
    → IsKeyed c
    → length offset ≡ 16
    → full * 16 ≤ length text
    → open_blocks c full i offset checksum ((seal_blocks c full i offset checksum text).out ++ tail)
      ≡ record (seal_blocks c full i offset checksum text) {
        out = take (full * 16) text;
        rest = tail;
      }
unfolding seal_blocks open_blocks
open_blocks-seal_blocks c zero i offset checksum text tail k o h = refl
open_blocks-seal_blocks c (suc full) i offset checksum text tail k o h =
    let offset' = next_offset c i offset in
    let p = take 16 text in
    let size : length p ≡ 16 = length-first_block full text h in
    let o' : length offset' ≡ 16 = length-next_offset c i offset k o in
    let s = seal_block c offset' p in
    let rest = seal_blocks c full (i + 1) offset' (xor checksum p) (drop 16 text) in
    let cut : (s ++ rest.out) ++ tail ≡ s ++ (rest.out ++ tail) = append_assoc s rest.out tail in
    let n : length s ≡ 16 = length-seal_block c offset' p k o' size in
    let first : open_block c offset' (take 16 ((s ++ rest.out) ++ tail)) ≡ p =
      ap (λ x. open_block c offset' (take 16 x)) cut
      ∙ ap (open_block c offset') (take-append_of_length 16 s (rest.out ++ tail) n)
      ∙ open_block-seal_block c offset' p k o' size in
    let behind : drop 16 ((s ++ rest.out) ++ tail) ≡ rest.out ++ tail =
      ap (drop 16) cut ∙ drop-append_of_length 16 s (rest.out ++ tail) n in
    (λ j.
      put_before (first j) (open_blocks c full (i + 1) offset' (xor checksum (first j)) (behind j)))
    ∙ ap (put_before p) (
        open_blocks-seal_blocks c full (i + 1) offset' (xor checksum p) (drop 16 text) tail k o'
          (omega (arith, length-drop 16 text)))
    ∙ (λ j. record rest { out = take-blocks full text j; rest = tail })

pub seal_blocks-open_blocks :
    (c : Cipher) (full i : ℕ) (offset checksum text tail : Bytes)
    → IsKeyed c
    → length offset ≡ 16
    → full * 16 ≤ length text
    → seal_blocks c full i offset checksum ((open_blocks c full i offset checksum text).out ++ tail)
      ≡ record (open_blocks c full i offset checksum text) {
        out = take (full * 16) text;
        rest = tail;
      }
unfolding seal_blocks open_blocks
seal_blocks-open_blocks c zero i offset checksum text tail k o h = refl
seal_blocks-open_blocks c (suc full) i offset checksum text tail k o h =
    let offset' = next_offset c i offset in
    let size : length (take 16 text) ≡ 16 = length-first_block full text h in
    let o' : length offset' ≡ 16 = length-next_offset c i offset k o in
    let p = open_block c offset' (take 16 text) in
    let rest = open_blocks c full (i + 1) offset' (xor checksum p) (drop 16 text) in
    let cut : (p ++ rest.out) ++ tail ≡ p ++ (rest.out ++ tail) = append_assoc p rest.out tail in
    let n : length p ≡ 16 = length-open_block c offset' (take 16 text) k o' size in
    let first : take 16 ((p ++ rest.out) ++ tail) ≡ p =
      ap (take 16) cut ∙ take-append_of_length 16 p (rest.out ++ tail) n in
    let behind : drop 16 ((p ++ rest.out) ++ tail) ≡ rest.out ++ tail =
      ap (drop 16) cut ∙ drop-append_of_length 16 p (rest.out ++ tail) n in
    (λ j.
      put_before (seal_block c offset' (first j))
        (seal_blocks c full (i + 1) offset' (xor checksum (first j)) (behind j)))
    ∙ ap (put_before (seal_block c offset' p)) (
        seal_blocks-open_blocks c full (i + 1) offset' (xor checksum p) (drop 16 text) tail k o'
          (omega (arith, length-drop 16 text)))
    ∙ (λ j. record rest {
      out =
          (ap (λ x. x ++ take (full * 16) (drop 16 text))
                (seal_block-open_block c offset' (take 16 text) k o' size)
              ∙ take-blocks full text)
            j;
      rest = tail;
    })
