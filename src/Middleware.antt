-- ===== src/Middleware.antt =====
-- crates/tork-core/src/middleware/: the chain and the built-in middlewares.
pub mod Http
pub mod Chain
pub mod Cors
pub mod Hosts
pub mod BodyLimit
pub mod Headers
pub mod Tests
