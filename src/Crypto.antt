-- ===== src/Crypto.antt =====
-- internal/crypto: keys and sealed datagrams.
pub mod Session
pub mod Key
pub mod Sealing
mod Tests
