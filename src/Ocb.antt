-- ===== src/Ocb.antt =====
-- internal/ocb: the authenticated encryption of datagrams.
pub mod Block
pub mod Cipher
pub mod Lengths
mod Loops
mod Turns
pub mod Opens
pub mod Exact
mod Tests
