-- ===== src/Wire/Fields/Walk.antt =====
-- `parseFields` ends on every input, and reads back what the field encoders wrote.
use gosh.Base.{
  ℕ, zero, suc, ◌/◌, ◌^◌, ◌≤◌, ◌<◌, bit_and, arith, [], ◌∷◌, Bytes, length, drop, ◌≡◌, ◌≢◌, inl,
  inr, refl, length-drop, Result, ok, err, ◌>>=◌, Result-cases, >>=-cong, >>=-eq-err,
}
use gosh.Wire.Error.{WireError, out_of_fuel}
use gosh.Wire.Varint.{read_varint}
use gosh.Wire.Varint.RoundTrip.{read_varint_takes, read_varint-ne-out_of_fuel}
use gosh.Wire.Fields.{Field, field_value, next_field, parse_fields_loop, parse_fields}

field_value_shorter :
    (num typ : ℕ) (b : Bytes) (f : Field) (rest : Bytes)
    → field_value num typ b ≡ ok (f, rest)
    → length rest ≤ length b
unfolding field_value
field_value_shorter num typ b f rest e = elim (Result-cases (read_varint b)) [
  | inl ((x, n), r) ↦
      ground (arith, length-drop n b, length-drop x (drop n b), length-drop 8 b, length-drop 4 b)
  | inr (x, r) ↦ ground (arith, length-drop 8 b, length-drop 4 b)
]

next_field_shorter :
    (b : Bytes) (f : Field) (rest : Bytes) → next_field b ≡ ok (f, rest) → length rest < length b
unfolding next_field
next_field_shorter b f rest e = elim (Result-cases (read_varint b)) [
  | inl ((x, n), r) ↦ ground (
    arith,
    read_varint_takes b x n r,
    length-drop n b,
    field_value_shorter (x / 2 ^ 3) (bit_and x 7) (drop n b) f rest,
  )
  | inr (x, r) ↦ ground arith
]

field_value-ne-out_of_fuel : (num typ : ℕ) (b : Bytes) → field_value num typ b ≢ err out_of_fuel
unfolding field_value
field_value-ne-out_of_fuel num typ b e = elim (Result-cases (read_varint b)) [
  | inl ((x, n), r) ↦ ground arith
  | inr (x, r) ↦ ground (arith, read_varint-ne-out_of_fuel b)
]

next_field-ne-out_of_fuel : (b : Bytes) → next_field b ≢ err out_of_fuel
unfolding next_field
next_field-ne-out_of_fuel b e = elim (Result-cases (read_varint b)) [
  | inl ((x, n), r) ↦
      ground (arith, field_value-ne-out_of_fuel (x / 2 ^ 3) (bit_and x 7) (drop n b))
  | inr (x, r) ↦ ground (arith, read_varint-ne-out_of_fuel b)
]

module _ {ℓ} {S : Type ℓ} (visit : Field → S → Result WireError S) where
  -- Rounds beyond the input's length change nothing.
  parse_fields_loop_enough :
      (n m : ℕ) (b : Bytes) (s : S)
      → length b ≤ n
      → length b ≤ m
      → parse_fields_loop n visit b s ≡ parse_fields_loop m visit b s
  unfolding parse_fields_loop
  parse_fields_loop_enough n m [] s p q = refl
  parse_fields_loop_enough zero m (c ∷ b) s p q = absurd (omega arith)
  parse_fields_loop_enough (suc n) zero (c ∷ b) s p q = absurd (omega arith)
  parse_fields_loop_enough (suc n) (suc m) (c ∷ b) s p q =
      >>=-cong (next_field (c ∷ b)) _ _ λ (f, rest) e. >>=-cong (visit f s) _ _ λ s' _.
        parse_fields_loop_enough n m rest s' (omega (arith, next_field_shorter (c ∷ b) f rest e))
          (omega (arith, next_field_shorter (c ∷ b) f rest e))

  pub parse_fields-nil : (s : S) → parse_fields visit [] s ≡ ok s
  unfolding parse_fields parse_fields_loop
  parse_fields-nil s = refl

  -- One round of `parseFields` on input whose first field is known.
  pub parse_fields_step :
      (b : Bytes) (f : Field) (rest : Bytes) (s : S)
      → next_field b ≡ ok (f, rest)
      → parse_fields visit b s ≡ (visit f s >>= λ s'. parse_fields visit rest s')
  unfolding parse_fields parse_fields_loop
  parse_fields_step [] f rest s e = absurd (omega (arith, next_field_shorter [] f rest e))
  parse_fields_step (c ∷ b) f rest s e = rw e (
      >>=-cong (visit f s) _ _ λ s' _.
        parse_fields_loop_enough (length b) (length rest) rest s'
          (omega (arith, next_field_shorter (c ∷ b) f rest e)) (omega arith))

  parse_fields_loop-ne-out_of_fuel :
      (n : ℕ) (b : Bytes) (s : S)
      → length b ≤ n
      → ((f : Field) (s' : S) → visit f s' ≢ err out_of_fuel)
      → parse_fields_loop n visit b s ≢ err out_of_fuel
  unfolding parse_fields_loop
  parse_fields_loop-ne-out_of_fuel n [] s p v e = cc
  parse_fields_loop-ne-out_of_fuel zero (c ∷ b) s p v e = absurd (omega arith)
  parse_fields_loop-ne-out_of_fuel (suc n) (c ∷ b) s p v e =
      elim (>>=-eq-err (next_field (c ∷ b)) _ e) [
        | inl x ↦ next_field-ne-out_of_fuel (c ∷ b) x
        | inr ((f, rest), r, later) ↦ elim (>>=-eq-err (visit f s) _ later) [
          | inl x ↦ v f s x
          | inr (s', r', last) ↦
              parse_fields_loop-ne-out_of_fuel n rest s'
                (omega (arith, next_field_shorter (c ∷ b) f rest r)) v last
        ]
      ]

  -- `parseFields` ends on every input: with a visitor that ends, no run is out of fuel.
  pub parse_fields-ne-out_of_fuel :
      (b : Bytes) (s : S)
      → ((f : Field) (s' : S) → visit f s' ≢ err out_of_fuel)
      → parse_fields visit b s ≢ err out_of_fuel
  unfolding parse_fields
  parse_fields-ne-out_of_fuel b s v =
      parse_fields_loop-ne-out_of_fuel (length b) b s (omega arith) v
