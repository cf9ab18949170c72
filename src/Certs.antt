-- ===== src/Certs.antt =====
-- internal/certs/manager.go: the certificates of the connections to the upstream. `Defs` has the
-- state and the operations; the others are proofs.
pub mod Defs
pub mod Reload
pub mod Watching
mod Tests
