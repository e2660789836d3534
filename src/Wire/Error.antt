-- ===== src/Wire/Error.antt =====
-- The errors of internal/wire/wire.go.

-- `out_of_fuel` is no Go value: it marks a walk over fields that was given too few rounds.
pub data WireError : Type 0 where
  truncated : WireError
  varint_overflow : WireError
  field_number_zero : WireError
  unsupported_wire_type : WireError
  protocol_version_overflow : WireError
  out_of_fuel : WireError
