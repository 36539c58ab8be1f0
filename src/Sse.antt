-- ===== src/Sse.antt =====
-- crates/tork-core/src/sse.rs: Server-Sent Events.
pub mod Event
pub mod Wire
pub mod Delivery
pub mod Messages
pub mod Body
pub mod Draining
pub mod Tests
