-- ===== src/Macros.antt =====
-- crates/tork-macros/src: the procedural macros.
pub mod Values
mod Tests
