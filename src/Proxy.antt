-- ===== src/Proxy.antt =====
-- The proxy: internal/proxy/handler.go.
pub mod Effects
pub mod Handler
pub mod Headers
pub mod Identity
pub mod Events
pub mod Dial
pub mod Tunnel
pub mod Goroutines
pub mod Transport
pub mod Forward
pub mod Connect
pub mod Views
pub mod Recorded
pub mod Gate
pub mod Samples
mod Tests
