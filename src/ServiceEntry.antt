-- ===== src/ServiceEntry.antt =====
-- The allowlist: internal/serviceentry/watcher.go and handlers.go.
-- `Defs` has the state and the operations, `Spec` what they promise; the others are proofs.
pub mod Defs
pub mod Spec
pub mod Dump
pub mod Refinement
pub mod Safety
pub mod Coverage
pub mod Order
pub mod Names
pub mod Invariant
pub mod History
pub mod Running
mod Tests
