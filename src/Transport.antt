-- ===== src/Transport.antt =====
-- internal/transport: instructions cut into datagrams and put together again.
pub mod Error
pub mod Fragment
pub mod Assembly
pub mod Delivery
pub mod Sender
pub mod Send
pub mod Receiver
mod Tests
mod SendTests
