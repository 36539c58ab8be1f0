-- ===== src/Ws.antt =====
-- crates/tork-core/src/ws.rs: WebSockets.
pub mod Message
pub mod Config
pub mod Limiter
pub mod Handshake
pub mod Connection
mod Tests
