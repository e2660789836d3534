-- ===== src/Wire/Instruction/RoundTrip.antt =====
-- `UnmarshalInstruction` undoes `Marshal`, and skips fields that it does not know.
use gosh.Base.{
  ℕ, ◌^◌, ◌<◌, [], ◌++◌, Bytes, IsU64, length, ◌≡◌, ◌≢◌, refl, sym, ◌∙◌, append-nil, append_assoc,
  arith, ok, err,
}
use gosh.Wire.Error.{out_of_fuel}
use gosh.Wire.Fields.{
  Field, append_bytes_field, append_uint64_field, parse_fields, parse_fields_loop,
}
use gosh.Wire.Fields.Walk.{parse_fields-ne-out_of_fuel}
use gosh.Wire.Fields.Encoded.{
  IsFieldNum, append_uint64_field-append, append_bytes_field-append,
  parse_fields-append_uint64_field, parse_fields-append_bytes_field,
}
use gosh.Wire.Instruction.{
  Instruction, marshal, empty_instruction, visit_instruction, unmarshal_instruction,
}

-- The widths of the Go fields, and lengths that fit a uint64.
pub record IsValid (i : Instruction) : Type 0 where
  pub protocol_version_fits : i.protocol_version < 4294967296
  pub old_num_fits : IsU64 i.old_num
  pub new_num_fits : IsU64 i.new_num
  pub ack_num_fits : IsU64 i.ack_num
  pub throwaway_num_fits : IsU64 i.throwaway_num
  pub diff_fits : IsU64 (length i.diff)
  pub chaff_fits : IsU64 (length i.chaff)

-- The seven fields, each in front of the next.
abbrev nested : Instruction → Bytes → Bytes
nested i rest =
    append_uint64_field [] 1 i.protocol_version
    ++ (append_uint64_field [] 2 i.old_num
        ++ (append_uint64_field [] 3 i.new_num
            ++ (append_uint64_field [] 4 i.ack_num
                ++ (append_uint64_field [] 5 i.throwaway_num
                    ++ (append_bytes_field [] 6 i.diff
                        ++ (append_bytes_field [] 7 i.chaff ++ rest))))))

marshal-nested : (i : Instruction) (rest : Bytes) → IsValid i → marshal i ++ rest ≡ nested i rest
unfolding marshal
marshal-nested i rest h =
    rw
      (
        append_bytes_field-append _ 7 i.chaff (omega arith) h.chaff_fits,
        append_bytes_field-append _ 6 i.diff (omega arith) h.diff_fits,
        append_uint64_field-append _ 5 i.throwaway_num (omega arith) h.throwaway_num_fits,
        append_uint64_field-append _ 4 i.ack_num (omega arith) h.ack_num_fits,
        append_uint64_field-append _ 3 i.new_num (omega arith) h.new_num_fits,
        append_uint64_field-append _ 2 i.old_num (omega arith) h.old_num_fits,
      )
      (simp append_assoc)

module _ (s : Instruction) (rest : Bytes) where
  uint64_step :
      (n v : ℕ) {r : Instruction}
      → IsFieldNum n
      → IsU64 v
      → visit_instruction (record { num = n; typ = 0; varix = v; contents = [] }) s ≡ ok r
      → parse_fields visit_instruction (append_uint64_field [] n v ++ rest) s
        ≡ parse_fields visit_instruction rest r
  uint64_step n v h hv e = parse_fields-append_uint64_field visit_instruction n v rest s h hv ∙ rw e

  bytes_step :
      (n : ℕ) (v : Bytes) {r : Instruction}
      → IsFieldNum n
      → IsU64 (length v)
      → visit_instruction (record { num = n; typ = 2; varix = 0; contents = v }) s ≡ ok r
      → parse_fields visit_instruction (append_bytes_field [] n v ++ rest) s
        ≡ parse_fields visit_instruction rest r
  bytes_step n v h hv e = parse_fields-append_bytes_field visit_instruction n v rest s h hv ∙ rw e

-- A walk over a marshalled instruction sets all seven fields and goes on behind it.
parse_fields-marshal :
    (i s : Instruction) (rest : Bytes)
    → IsValid i
    → parse_fields visit_instruction (marshal i ++ rest) s ≡ parse_fields visit_instruction rest i
unfolding visit_instruction
parse_fields-marshal i s rest h = rw (marshal-nested i rest h) (
    uint64_step s _ 1 i.protocol_version {r = record s { protocol_version = i.protocol_version }}
      (omega arith) (omega arith) (ground arith)
    ∙ uint64_step _ _ 2 i.old_num (omega arith) h.old_num_fits refl
    ∙ uint64_step _ _ 3 i.new_num (omega arith) h.new_num_fits refl
    ∙ uint64_step _ _ 4 i.ack_num (omega arith) h.ack_num_fits refl
    ∙ uint64_step _ _ 5 i.throwaway_num (omega arith) h.throwaway_num_fits refl
    ∙ bytes_step _ _ 6 i.diff (omega arith) h.diff_fits refl
    ∙ bytes_step _ _ 7 i.chaff (omega arith) h.chaff_fits refl)

-- An instruction whose fields have the Go widths comes back from its encoding.
pub unmarshal_instruction-marshal :
    (i : Instruction) → IsValid i → unmarshal_instruction (marshal i) ≡ ok i
unfolding unmarshal_instruction parse_fields parse_fields_loop
unmarshal_instruction-marshal i h =
    rw (sym (append-nil (marshal i))) (parse_fields-marshal i empty_instruction [] h)

-- Fields that are not known, of either kind that the encoders write, are skipped wherever a newer
-- peer appends them.
pub unmarshal_instruction_unknown :
    (i : Instruction) (n m v : ℕ) (w : Bytes)
    → IsValid i
    → 7 < n
    → n < 2 ^ 61
    → 7 < m
    → m < 2 ^ 61
    → IsU64 v
    → IsU64 (length w)
    → unmarshal_instruction
        (marshal i ++ (append_uint64_field [] n v ++ (append_bytes_field [] m w ++ [])))
      ≡ ok i
unfolding unmarshal_instruction visit_instruction parse_fields parse_fields_loop
unmarshal_instruction_unknown i n m v w h n_lo n_hi m_lo m_hi hv hw =
    parse_fields-marshal i empty_instruction _ h
    ∙ uint64_step i _ n v {r = i} (omega arith) hv (ground arith)
    ∙ bytes_step i _ m w {r = i} (omega arith) hw (ground arith)

visit_instruction-ne-out_of_fuel :
    (f : Field) (i : Instruction) → visit_instruction f i ≢ err out_of_fuel
unfolding visit_instruction
visit_instruction-ne-out_of_fuel f i e = ground arith

-- `UnmarshalInstruction` ends on every input: it never stops for want of rounds.
pub unmarshal_instruction-ne-out_of_fuel : (b : Bytes) → unmarshal_instruction b ≢ err out_of_fuel
unfolding unmarshal_instruction
unmarshal_instruction-ne-out_of_fuel b =
    parse_fields-ne-out_of_fuel visit_instruction b empty_instruction
      visit_instruction-ne-out_of_fuel
