-- ===== src/Http.antt =====
-- What the program uses of Go's package net/http: header maps and messages.
pub mod Header
pub mod Message
pub mod Canonical
mod Tests
