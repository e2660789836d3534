-- ===== src/Cmd.antt =====
-- cmd/gosh: the target of a session, and the terminal around it.
pub mod Target
pub mod Attach
pub mod Auth
pub mod Session
mod Tests
mod SessionTests
