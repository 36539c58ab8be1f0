-- ===== src/Server.antt =====
-- crates/tork-core/src/server.rs: the HTTP server.
pub mod Config
pub mod Connections
mod Tests
