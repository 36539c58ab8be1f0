-- ===== src/Throttle.antt =====
-- crates/tork-core/src/throttle: rate limiting. `Store` is the counter backend, `Policy` the
-- configuration and its resolution, `Engine` the decision on a request.
pub mod Store
pub mod Policy
pub mod Engine
mod Tests
