-- ===== src/Client.antt =====
-- internal/client: local input and terminal output of a session.
pub mod Escape
pub mod Render
pub mod Run
mod Shutdown
mod Tests
pub mod Resize
mod ResizeTests
mod Unplugged
pub mod Start
mod Pump
mod PumpTests
mod Noise
mod Answers
