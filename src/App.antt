-- ===== src/App.antt =====
-- crates/tork-core/src/app.rs, service.rs, lifespan.rs and state.rs: the application.
pub mod Lifecycle
pub mod State
pub mod Builder
pub mod World
pub mod Dispatch
pub mod Tests
