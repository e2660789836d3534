-- ===== src/Wire/Instruction.antt =====
-- internal/wire/wire.go: TransportBuffers.Instruction, `Marshal` and `UnmarshalInstruction`.
pub mod RoundTrip
use gosh.Base.{
  ℕ, ◌<◌, List, [], ◌∷◌, Bytes, Bool, true, false, ltb, ◌==◌, if◌then◌else◌, Result, ok, err,
}
use gosh.Wire.Error.{WireError, protocol_version_overflow}
use gosh.Wire.Fields.{Field, append_bytes_field, append_uint64_field, parse_fields}

pub record Instruction : Type 0 where
  pub protocol_version : ℕ
  pub old_num : ℕ
  pub new_num : ℕ
  pub ack_num : ℕ
  pub throwaway_num : ℕ
  pub diff : Bytes
  pub chaff : Bytes

unfoldable pub marshal : Instruction → Bytes
marshal i =
    let b = append_uint64_field [] 1 i.protocol_version in
    let b = append_uint64_field b 2 i.old_num in
    let b = append_uint64_field b 3 i.new_num in
    let b = append_uint64_field b 4 i.ack_num in
    let b = append_uint64_field b 5 i.throwaway_num in
    let b = append_bytes_field b 6 i.diff in append_bytes_field b 7 i.chaff

abbrev pub empty_instruction : Instruction
empty_instruction = record {
  protocol_version = 0;
  old_num = 0;
  new_num = 0;
  ack_num = 0;
  throwaway_num = 0;
  diff = [];
  chaff = [];
}

abbrev max_uint32 : ℕ
max_uint32 = 0xFFFF_FFFF

-- The visitor of `UnmarshalInstruction`: it looks at the field's number alone.
unfoldable pub visit_instruction : Field → Instruction → Result WireError Instruction
visit_instruction f i =
    if f.num == 1
    then (if ltb max_uint32 f.varix
        then err protocol_version_overflow
        else ok (record i { protocol_version = f.varix }))
    else if f.num == 2
    then ok (record i { old_num = f.varix })
    else if f.num == 3
    then ok (record i { new_num = f.varix })
    else if f.num == 4
    then ok (record i { ack_num = f.varix })
    else if f.num == 5
    then ok (record i { throwaway_num = f.varix })
    else if f.num == 6
    then ok (record i { diff = f.contents })
    else if f.num == 7
    then ok (record i { chaff = f.contents })
    else ok i

unfoldable pub unmarshal_instruction : Bytes → Result WireError Instruction
unfolding visit_instruction
unmarshal_instruction b = parse_fields visit_instruction b empty_instruction
