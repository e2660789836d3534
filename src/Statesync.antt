-- ===== src/Statesync.antt =====
-- internal/statesync: the client's outgoing state.
pub mod UserStream
pub mod Diff
pub mod Equal
mod Tests
