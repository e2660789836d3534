-- ===== src/Wire/Tests.antt =====
-- Runs of the codec of internal/wire/wire.go on concrete messages.
use gosh.Base.{◌-◌, ◌^◌, List, [], ◌∷◌, ◌≡◌, ◌≢◌, refl, arith, ok, err}
use gosh.Base.Int.{pos, negsuc, to_uint64, of_uint64}
use gosh.Wire.Error.{
  out_of_fuel, truncated, varint_overflow, field_number_zero, unsupported_wire_type,
  protocol_version_overflow,
}
use gosh.Wire.Varint.{append_varint, read_varint}
use gosh.Wire.Fields.{
  append_uint64_field, append_bytes_field, next_field, field_value, parse_fields,
}
use gosh.Wire.Instruction.{Instruction, marshal, unmarshal_instruction}
use gosh.Wire.Instruction.RoundTrip.{unmarshal_instruction-marshal}
use gosh.Wire.Messages.{
  UserEvent, keys_event, resize_event, marshal_user_message, unmarshal_user_message,
  host_bytes_event, host_resize_event, echo_ack_event, visit_host_instruction, visit_host_extension,
  visit_host_string, visit_resize, visit_echo_ack, unmarshal_host_message,
}
use gosh.Wire.Messages.RoundTrip.{IsEvent, unmarshal_user_message-marshal_user_message}
use gosh.Wire.Messages.Total.{unmarshal_messages_total}

abbrev opening : Instruction
opening = record {
  protocol_version = 2;
  old_num = 0;
  new_num = 300;
  ack_num = 5;
  throwaway_num = 0;
  diff = 1 ∷ 2 ∷ [];
  chaff = [];
}

marshal-opening :
    marshal opening
    ≡ 8 ∷ 2 ∷ 16 ∷ 0 ∷ 24 ∷ 0xac ∷ 2 ∷ 32 ∷ 5 ∷ 40 ∷ 0 ∷ 50 ∷ 2 ∷ 1 ∷ 2 ∷ 58 ∷ 0 ∷ []
unfolding marshal append_uint64_field append_bytes_field append_varint
marshal-opening = refl

read_varint_errors :
    (read_varint (0x80 ∷ 0xff ∷ []) ≡ err truncated)
    × (read_varint (0x80 ∷ 0x80 ∷ 0x80 ∷ 0x80 ∷ 0x80 ∷ 0x80 ∷ 0x80 ∷ 0x80 ∷ 0x80 ∷ 0x80 ∷ 0 ∷ [])
        ≡ err varint_overflow)
unfolding read_varint
read_varint_errors = (refl, refl)

unmarshal_instruction_errors :
    (unmarshal_instruction (8 ∷ 0xff ∷ 0xff ∷ 0xff ∷ 0xff ∷ 0x1f ∷ [])
      ≡ err protocol_version_overflow)
    × (unmarshal_instruction (1 ∷ []) ≡ err field_number_zero)
    × (unmarshal_instruction (11 ∷ 0 ∷ []) ≡ err unsupported_wire_type)
    × (unmarshal_instruction (50 ∷ 3 ∷ 1 ∷ 2 ∷ []) ≡ err truncated)
unfolding unmarshal_instruction parse_fields next_field field_value read_varint
unmarshal_instruction_errors = (refl, refl, refl, refl)

unmarshal_host_message_run :
    unmarshal_host_message (
      10
      ∷ 4
      ∷ 18
      ∷ 2
      ∷ 34
      ∷ 0
      ∷ (10 ∷ 6 ∷ 26 ∷ 4 ∷ 40 ∷ 80 ∷ 48 ∷ 24 ∷ (10 ∷ 4 ∷ 58 ∷ 2 ∷ 64 ∷ 9 ∷ [])))
    ≡ ok (host_bytes_event [] ∷ host_resize_event (pos 80) (pos 24) ∷ echo_ack_event 9 ∷ [])
unfolding unmarshal_host_message visit_host_instruction visit_host_extension visit_host_string
    visit_resize visit_echo_ack parse_fields next_field field_value read_varint of_uint64
unmarshal_host_message_run = refl

signed_sizes : (to_uint64 (negsuc 0) ≡ 0xffff_ffff_ffff_ffff) × (of_uint64 (2 ^ 64 - 2) ≡ negsuc 1)
unfolding to_uint64 of_uint64
signed_sizes = (refl, refl)

padded_zero : read_varint (0x80 ∷ 0 ∷ 7 ∷ []) ≡ ok (0, 2)
unfolding read_varint
padded_zero = refl

unmarshal_instruction-marshal_example : unmarshal_instruction (marshal opening) ≡ ok opening
unmarshal_instruction-marshal_example = unmarshal_instruction-marshal opening (omega arith)

abbrev typed : List UserEvent
typed = resize_event (pos 80) (pos 24) ∷ keys_event (b'l' ∷ b's' ∷ []) ∷ []

unmarshal_user_message-marshal_user_message_example :
    unmarshal_user_message (marshal_user_message typed) ≡ ok typed
unmarshal_user_message-marshal_user_message_example =
    unmarshal_user_message-marshal_user_message typed (
      IsEvent.resized (pos 80) (pos 24) (omega arith) (omega arith),
      (IsEvent.keys (b'l' ∷ b's' ∷ []) (omega arith), tt),
    )

unmarshal_messages_total_example :
    (unmarshal_user_message (10 ∷ 2 ∷ 1 ∷ []) ≢ err out_of_fuel)
    × (unmarshal_host_message (10 ∷ 2 ∷ 1 ∷ []) ≢ err out_of_fuel)
unmarshal_messages_total_example = unmarshal_messages_total (10 ∷ 2 ∷ 1 ∷ [])
