-- ===== src/Osc52.antt =====
-- internal/osc52/osc52.go: the streaming filter for clipboard sequences. Policy has the policies,
-- Filter the state machine; Machine restates the loop of `Filter` one byte at a time.
pub mod Policy
pub mod Filter
pub mod Machine
pub mod Bypass
mod Tests
