-- ===== src/Wire/Fields.antt =====
-- internal/wire/wire.go: tags, the two field encoders, and `parseFields` with its visitor. What
-- the visitor's closure captures is a state that is passed through; an error drops it, as the
-- callers do.
pub mod Walk
pub mod Encoded
use gosh.Base.{
  ℕ, zero, suc, ◌+◌, ◌*◌, ◌/◌, ◌%◌, ◌^◌, bit_and, bit_or, List, [], ◌∷◌, ◌++◌, Bytes, length, take,
  drop, ltb, ◌==◌, if◌then◌else◌, Result, ok, err, ◌>>=◌,
}
use gosh.Wire.Error.{WireError, truncated, field_number_zero, unsupported_wire_type, out_of_fuel}
use gosh.Wire.Varint.{append_varint, read_varint}

abbrev pub wire_varint : ℕ
wire_varint = 0

abbrev pub wire_i64 : ℕ
wire_i64 = 1

abbrev pub wire_bytes : ℕ
wire_bytes = 2

abbrev pub wire_i32 : ℕ
wire_i32 = 5

-- `uint64(field)<<3 | uint64(typ)`
unfoldable pub append_tag : Bytes → ℕ → ℕ → Bytes
append_tag b field typ = append_varint b (bit_or (field * 2 ^ 3 % 2 ^ 64) typ)

unfoldable pub append_bytes_field : Bytes → ℕ → Bytes → Bytes
unfolding append_tag
append_bytes_field b field v = append_varint (append_tag b field wire_bytes) (length v) ++ v

unfoldable pub append_uint64_field : Bytes → ℕ → ℕ → Bytes
unfolding append_tag
append_uint64_field b field v = append_varint (append_tag b field wire_varint) v

-- `contents` is the source's `data`.
pub record Field : Type 0 where
  pub num : ℕ
  pub typ : ℕ
  pub varix : ℕ
  pub contents : Bytes

-- `wireBytes` behind its length `l`.
abbrev bytes_value : Field → ℕ → Bytes → Result WireError (Field × Bytes)
bytes_value f l b =
    if ltb (length b) l then err truncated else ok (record f { contents = take l b }, drop l b)

-- The switch on the wire type, on the bytes behind the key: the field, and what follows it.
unfoldable pub field_value : ℕ → ℕ → Bytes → Result WireError (Field × Bytes)
field_value num typ b =
    let f : Field = record { num = num; typ = typ; varix = 0; contents = [] } in
    if typ == wire_varint
    then (do (v, n) ← read_varint b; ok (record f { varix = v }, drop n b))
    else if typ == wire_bytes
    then (do (l, n) ← read_varint b; bytes_value f l (drop n b))
    else if typ == wire_i64
    then (if ltb (length b) 8 then err truncated else ok (f, drop 8 b))
    else if typ == wire_i32
    then (if ltb (length b) 4 then err truncated else ok (f, drop 4 b))
    else err unsupported_wire_type

-- One round of `parseFields` up to the visitor: the key, then the value.
unfoldable pub next_field : Bytes → Result WireError (Field × Bytes)
next_field b = do
  (key, n) ← read_varint b
  if key / 2 ^ 3 == 0
      then err field_number_zero
      else (field_value (key / 2 ^ 3) (bit_and key 7) (drop n b))

module _ {ℓ} {S : Type ℓ} where
  -- The rounds left are fuel: each takes a byte at least.
  unfoldable pub parse_fields_loop :
      ℕ → (Field → S → Result WireError S) → Bytes → S → Result WireError S
  parse_fields_loop fuel visit [] s = ok s
  parse_fields_loop zero visit (c ∷ b) s = err out_of_fuel
  parse_fields_loop (suc fuel) visit (c ∷ b) s = do
    (f, rest) ← next_field (c ∷ b)
    s' ← visit f s
    parse_fields_loop fuel visit rest s'

  unfoldable pub parse_fields : (Field → S → Result WireError S) → Bytes → S → Result WireError S
  unfolding parse_fields_loop
  parse_fields visit b s = parse_fields_loop (length b) visit b s
