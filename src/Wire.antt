-- ===== src/Wire.antt =====
-- internal/wire/wire.go: the hand-written codec of the three protocol messages.
-- Varint has the base-128 numbers, Fields the key/value pairs and the walk over them,
-- Instruction the transport message and Messages the user and host messages.
pub mod Error
pub mod Varint
pub mod Fields
pub mod Instruction
pub mod Messages
mod Tests
