-- ===== src/Wire/Fields/Encoded.antt =====
-- `parseFields` reads back what the field encoders of internal/wire/wire.go wrote.
use gosh.Base.{
  ℕ, ◌+◌, ◌*◌, ◌/◌, ◌%◌, ◌^◌, ◌≤◌, ◌<◌, bit_or, arith, [], ◌++◌, Bytes, IsU64, length, ◌≡◌, sym, ap,
  ◌∙◌, append_assoc, length-append, take-append_length, drop-append_length, Result, ok, ◌>>=◌,
  >>=-ok, append-nil, fun_ext,
}
use gosh.Base.Bits.{shifted_bit_or, bit_and_mask}
use gosh.Wire.Error.{WireError}
use gosh.Wire.Varint.{append_varint}
use gosh.Wire.Varint.RoundTrip.{
  read_varint-append_varint, append_varint-append, length-append_varint,
}
use gosh.Wire.Fields.Walk.{parse_fields-nil, parse_fields_step}
use gosh.Wire.Fields.{
  wire_varint, wire_bytes, append_tag, append_bytes_field, append_uint64_field, Field, field_value,
  next_field, parse_fields,
}

-- What the encoders write is read as one field, with the rest behind it.
abbrev pub IsFieldNum : ℕ → Type 0
IsFieldNum n = (1 ≤ n) × (n < 2 ^ 61)

tag_lem : (n t : ℕ) → IsFieldNum n → t < 8 → bit_or (n * 2 ^ 3 % 2 ^ 64) t ≡ n * 8 + t
tag_lem n t h ht = ground (arith, shifted_bit_or 3 t n)

-- The key that `appendTag` writes is split into its number and its wire type.
next_field-append_tag :
    (n t : ℕ) (rest : Bytes)
    → IsFieldNum n
    → t < 8
    → next_field (append_tag [] n t ++ rest) ≡ field_value n t rest
unfolding next_field append_tag
next_field-append_tag n t rest h ht =
    rw
      (
        tag_lem n t h ht,
        read_varint-append_varint (n * 8 + t) rest (omega arith),
        drop-append_length (append_varint [] (n * 8 + t)) rest,
      )
      (ground (arith, bit_and_mask 3 (n * 8 + t), shifted n t ht, low n t ht))
  where
    shifted : (n t : ℕ) → t < 8 → (n * 8 + t) / 8 ≡ n
    shifted n t ht = omega arith

    low : (n t : ℕ) → t < 8 → (n * 8 + t) % 8 ≡ t
    low n t ht = omega arith

append_tag-append :
    (b : Bytes) (n t : ℕ) → IsFieldNum n → t < 8 → append_tag b n t ≡ b ++ append_tag [] n t
unfolding append_tag
append_tag-append b n t h ht = append_varint-append b _ (omega (arith, tag_lem n t h ht))

-- A uint64 field is appended behind what is there, and read back with its number and value.
pub next_field-append_uint64_field :
    (n v : ℕ) (rest : Bytes)
    → IsFieldNum n
    → IsU64 v
    → next_field (append_uint64_field [] n v ++ rest)
      ≡ ok (record { num = n; typ = wire_varint; varix = v; contents = [] }, rest)
unfolding append_uint64_field field_value
next_field-append_uint64_field n v rest h hv = rw (
  append_varint-append (append_tag [] n wire_varint) v hv,
  append_assoc (append_tag [] n wire_varint) (append_varint [] v) rest,
  next_field-append_tag n wire_varint (append_varint [] v ++ rest) h (omega arith),
  read_varint-append_varint v rest hv,
  drop-append_length (append_varint [] v) rest,
)

pub append_uint64_field-append :
    (b : Bytes) (n v : ℕ)
    → IsFieldNum n
    → IsU64 v
    → append_uint64_field b n v ≡ b ++ append_uint64_field [] n v
unfolding append_uint64_field
append_uint64_field-append b n v h hv =
    append_varint-append (append_tag b n wire_varint) v hv
    ∙ rw (
      append_tag-append b n wire_varint h (omega arith),
      append_varint-append (append_tag [] n wire_varint) v hv,
      append_assoc b (append_tag [] n wire_varint) (append_varint [] v),
    )

pub next_field-append_bytes_field :
    (n : ℕ) (v rest : Bytes)
    → IsFieldNum n
    → IsU64 (length v)
    → next_field (append_bytes_field [] n v ++ rest)
      ≡ ok (record { num = n; typ = wire_bytes; varix = 0; contents = v }, rest)
unfolding append_bytes_field field_value
next_field-append_bytes_field n v rest h hv =
    rw
      (
        append_varint-append (append_tag [] n wire_bytes) (length v) hv,
        append_assoc (append_tag [] n wire_bytes ++ append_varint [] (length v)) v rest,
        append_assoc (append_tag [] n wire_bytes) (append_varint [] (length v)) (v ++ rest),
        next_field-append_tag n wire_bytes (append_varint [] (length v) ++ (v ++ rest)) h
            (omega arith),
        read_varint-append_varint (length v) (v ++ rest) hv,
        drop-append_length (append_varint [] (length v)) (v ++ rest),
        take-append_length v rest,
        drop-append_length v rest,
      )
      (ground (arith, length-append v rest))

pub append_bytes_field-append :
    (b : Bytes) (n : ℕ) (v : Bytes)
    → IsFieldNum n
    → IsU64 (length v)
    → append_bytes_field b n v ≡ b ++ append_bytes_field [] n v
unfolding append_bytes_field
append_bytes_field-append b n v h hv =
    ap (λ t. t ++ v) (append_varint-append (append_tag b n wire_bytes) (length v) hv)
    ∙ rw (
      append_tag-append b n wire_bytes h (omega arith),
      append_varint-append (append_tag [] n wire_bytes) (length v) hv,
      append_assoc b (append_tag [] n wire_bytes) (append_varint [] (length v)),
      append_assoc b (append_tag [] n wire_bytes ++ append_varint [] (length v)) v,
    )

-- The walk over input whose first field one of the encoders wrote.
module _ {ℓ} {S : Type ℓ} (visit : Field → S → Result WireError S) where
  pub parse_fields-append_uint64_field :
      (n v : ℕ) (rest : Bytes) (s : S)
      → IsFieldNum n
      → IsU64 v
      → parse_fields visit (append_uint64_field [] n v ++ rest) s ≡ (
          visit (record { num = n; typ = wire_varint; varix = v; contents = [] }) s >>= λ s'.
          parse_fields visit rest s')
  parse_fields-append_uint64_field n v rest s h hv =
      parse_fields_step visit _ _ rest s (next_field-append_uint64_field n v rest h hv)

  pub parse_fields-append_bytes_field :
      (n : ℕ) (v rest : Bytes) (s : S)
      → IsFieldNum n
      → IsU64 (length v)
      → parse_fields visit (append_bytes_field [] n v ++ rest) s ≡ (
          visit (record { num = n; typ = wire_bytes; varix = 0; contents = v }) s >>= λ s'.
          parse_fields visit rest s')
  parse_fields-append_bytes_field n v rest s h hv =
      parse_fields_step visit _ _ rest s (next_field-append_bytes_field n v rest h hv)

  -- A message of one field leaves what its visitor leaves.
  pub parse_fields_one :
      (n : ℕ) (v : Bytes) (s : S)
      → IsFieldNum n
      → IsU64 (length v)
      → parse_fields visit (append_bytes_field [] n v) s
        ≡ visit (record { num = n; typ = wire_bytes; varix = 0; contents = v }) s
  parse_fields_one n v s h hv =
      ap (λ b. parse_fields visit b s) (sym (append-nil (append_bytes_field [] n v)))
      ∙ parse_fields-append_bytes_field n v [] s h hv
      ∙ rw (fun_ext (parse_fields-nil visit)) (>>=-ok _)

length-append_tag : (n t : ℕ) → IsFieldNum n → t < 8 → length (append_tag [] n t) ≤ 10
unfolding append_tag
length-append_tag n t h ht = (length-append_varint _ (omega (arith, tag_lem n t h ht))).1

-- How long one encoded field may be.
pub length-append_uint64_field :
    (n v : ℕ) → IsFieldNum n → IsU64 v → length (append_uint64_field [] n v) ≤ 20
unfolding append_uint64_field
length-append_uint64_field n v h hv = rw (append_varint-append (append_tag [] n wire_varint) v hv) (
    omega (
      arith,
      length-append (append_tag [] n wire_varint) (append_varint [] v),
      length-append_tag n wire_varint h (omega arith),
      length-append_varint v hv,
    ))

pub length-append_bytes_field :
    (n : ℕ) (v : Bytes)
    → IsFieldNum n
    → IsU64 (length v)
    → length (append_bytes_field [] n v) ≤ 20 + length v
unfolding append_bytes_field
length-append_bytes_field n v h hv =
    rw (append_varint-append (append_tag [] n wire_bytes) (length v) hv) (
      omega (
        arith,
        length-append (append_tag [] n wire_bytes ++ append_varint [] (length v)) v,
        length-append (append_tag [] n wire_bytes) (append_varint [] (length v)),
        length-append_tag n wire_bytes h (omega arith),
        length-append_varint (length v) hv,
      ))
