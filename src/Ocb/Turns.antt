-- ===== src/Ocb/Turns.antt =====
-- internal/ocb/ocb.go: the bytes behind the whole blocks and the tag, which `Seal` and `Open` compute
-- alike.
use gosh.Base.{
  ◌≤◌, [], ◌∷◌, ◌++◌, Bytes, length, equal_iff, false, ltb, if◌then◌else◌, Bool-cases, ◌≡◌, inl,
  inr, refl, ap, ◌∙◌, ok, arith,
}
use gosh.Ocb.Block.{xor, xor_twice, length-xor, length-absorb}
use gosh.Ocb.Cipher.{Cipher, Blocks, rest_offset, rest_out, rest_checksum, tag, sealed, opened}
use gosh.Ocb.Lengths.{IsKeyed}

empty : (b : Bytes) → ltb 0 (length b) ≡ false → [] ≡ b
empty [] e = refl
empty (x ∷ b) e = absurd (ground arith)

-- Blocks with other bytes put out, and with these bytes behind them.
abbrev pub turned : Cipher → Blocks → Bytes → Blocks
turned c b out = record b { out = out; rest = rest_out c b }

-- The bytes behind the whole blocks: what is put out for them stands for them again.
module _ (c : Cipher) (k : IsKeyed c) (b : Blocks) (o : length b.offset ≡ 16)
    (few : length b.rest ≤ 16) where
  length-rest_offset : length (rest_offset c b) ≡ 16
  length-rest_offset = elim (Bool-cases (ltb 0 (length b.rest))) [
    | inl e ↦ rw e (omega (arith, length-xor b.offset c.l_star (omega (arith, k.length-l_star))))
    | inr e ↦ rw e o
  ]

  length-pad : length (c.block.encrypt (rest_offset c b)) ≡ 16
  length-pad = k.lawful.length-encrypt (rest_offset c b) length-rest_offset

  pub length-rest_out : length (rest_out c b) ≡ length b.rest
  length-rest_out = elim (Bool-cases (ltb 0 (length b.rest))) [
    | inl e ↦
        let pad = c.block.encrypt (rest_offset c b) in
        (λ j. length (if e j then xor b.rest pad else []))
        ∙ length-xor b.rest pad (omega (arith, length-pad))
    | inr e ↦ rw e (ground arith)
  ]

  pub length-tag :
      length b.checksum ≡ 16
      → length (tag c (rest_checksum b.checksum b.rest) (rest_offset c b)) ≡ 16
  length-tag s =
      let sum : length (rest_checksum b.checksum b.rest) ≡ 16 =
        elim (Bool-cases (ltb 0 (length b.rest))) [
          | inl e ↦ rw e (length-absorb b.checksum b.rest ∙ s)
          | inr e ↦ rw e s
        ] in
      k.lawful.length-encrypt
        (xor (xor (rest_checksum b.checksum b.rest) (rest_offset c b)) c.l_dollar)
        (omega (
          arith,
          length-xor (rest_checksum b.checksum b.rest) (rest_offset c b)
              (omega (arith, length-rest_offset)),
          length-xor (xor (rest_checksum b.checksum b.rest) (rest_offset c b)) c.l_dollar (
              omega (
                arith,
                k.length-l_dollar,
                length-xor (rest_checksum b.checksum b.rest) (rest_offset c b)
                    (omega (arith, length-rest_offset)),
              )),
        ))

  same_test : ltb 0 (length (rest_out c b)) ≡ ltb 0 (length b.rest)
  same_test = ap (ltb 0) length-rest_out

  rest_offset-turned : (out : Bytes) → rest_offset c (turned c b out) ≡ rest_offset c b
  rest_offset-turned out = ap (λ t. if t then xor b.offset c.l_star else b.offset) same_test

  rest_out-turned : (out : Bytes) → rest_out c (turned c b out) ≡ b.rest
  rest_out-turned out =
      (λ j.
        if same_test j then xor (rest_out c b) (c.block.encrypt (rest_offset-turned out j)) else [])
      ∙ restored
    where
      pad : Bytes
      pad = c.block.encrypt (rest_offset c b)

      restored : (if ltb 0 (length b.rest) then xor (rest_out c b) pad else []) ≡ b.rest
      restored = elim (Bool-cases (ltb 0 (length b.rest))) [
        | inl e ↦
            (λ j. if e j then xor (if e j then xor b.rest pad else []) pad else [])
            ∙ xor_twice b.rest pad (omega (arith, length-pad))
        | inr e ↦ (λ j. if e j then xor (rest_out c b) pad else []) ∙ empty b.rest e
      ]

  tag-turned :
      (out : Bytes)
      → tag c
          (rest_checksum b.checksum (rest_out c (turned c b out)))
          (rest_offset c (turned c b out))
        ≡ tag c (rest_checksum b.checksum b.rest) (rest_offset c b)
  tag-turned out =
      λ j. tag c (rest_checksum b.checksum (rest_out-turned out j)) (rest_offset-turned out j)

  -- Turned blocks with their tag are opened, and sealed blocks that are turned are sealed again.
  pub opened-turned :
      (dst out : Bytes)
      → opened c dst (tag c (rest_checksum b.checksum b.rest) (rest_offset c b)) (turned c b out)
        ≡ ok (dst ++ (out ++ b.rest))
  opened-turned dst out =
      let same = (equal_iff _ _).1 (tag-turned out) in
      rw same (ap (λ r. ok (dst ++ (out ++ r))) (rest_out-turned out))

  pub sealed-turned :
      (out : Bytes)
      → sealed c (turned c b out)
        ≡ out ++ (b.rest ++ tag c (rest_checksum b.checksum (rest_out c b)) (rest_offset c b))
  sealed-turned out = λ j.
      out
      ++ (rest_out-turned out j
          ++ tag c (rest_checksum b.checksum (rest_out c b)) (rest_offset-turned out j))
