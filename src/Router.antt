-- ===== src/Router.antt =====
-- crates/tork-core/src/router: the router data model and path matching. `Paths` joins a prefix and
-- a path, `Routes` is the model of routes and routers, `Matcher` the table that a request is
-- matched against.
pub mod Paths
pub mod Routes
pub mod Matcher
mod Tests
