-- ===== src/Extract.antt =====
-- Bodies and what is taken out of them: crates/tork-core/src/extract/body.rs, and the capped
-- streaming body of crates/tork-core/src/body.rs.
pub mod Body
pub mod Nesting
pub mod Capping
pub mod Bearer
pub mod Tests
