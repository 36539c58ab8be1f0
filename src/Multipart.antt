-- ===== src/Multipart.antt =====
-- crates/tork-core/src/multipart.rs: uploads.
pub mod Config
pub mod Rules
pub mod Paths
pub mod Spool
pub mod Form
mod Tests
