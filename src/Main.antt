-- ===== src/Main.antt =====
-- cmd/main.go: the configuration from flags and environment, main itself, and the admin endpoints.
pub mod Settings
pub mod Admin
pub mod HeaderNames
pub mod Readiness
pub mod Flags
pub mod Startup
pub mod Starting
pub mod Outcome
pub mod Ending
pub mod Life
mod Launches
mod Tests
