-- ===== src/Network.antt =====
-- internal/network: packets and the connection that numbers them.
pub mod Packet
pub mod Connection
pub mod Dial
pub mod Tests
mod SocketTests
