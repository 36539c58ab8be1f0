-- ===== src/OpenApi.antt =====
-- crates/tork-openapi/src/: the documents that describe an application's routes. A text is the list
-- of its code points here, which for ASCII, and so for paths and methods, are its bytes.
pub mod Json
pub mod Escape
pub mod Names
pub mod Document
pub mod Channels
pub mod Serving
mod Values
mod Tests
