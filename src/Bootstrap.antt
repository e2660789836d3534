-- ===== src/Bootstrap.antt =====
-- internal/bootstrap: the start of mosh-server over SSH, host keys and agents.
pub mod KnownHosts
pub mod Algorithms
mod Preference
pub mod HostKeys
mod Lines
mod FirstUse
pub mod Policies
pub mod Made
pub mod Succeeded
pub mod Command
mod Shell
mod Quoting
mod Words
pub mod Output
pub mod Run
mod Started
mod OneLine
mod Redaction
pub mod Agents
mod Trust
pub mod Tests
pub mod StartTests
mod FirstUseTests
