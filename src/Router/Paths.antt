-- ===== src/Router/Paths.antt =====
-- crates/tork-core/src/router/mod.rs: `join_paths`, which composes the prefixes of routers.
pub mod Laws
use tork_framework.Base.{
  ℕ, ◌++◌, List, [], ◌∷◌, Text, trim_start, trim_end, starts_with, is_empty, if◌then◌else◌,
}

abbrev pub slash : Text
slash = b'/' ∷ []

unfoldable pub join_paths : Text → Text → Text
join_paths prefix path =
    let head = trim_end b'/' prefix in
    let tail = trim_start b'/' path in
    let combined = if is_empty tail then head else head ++ b'/' ∷ tail in
    let rooted = if starts_with slash combined then combined else b'/' ∷ combined in
    let normalized = trim_end b'/' rooted in if is_empty normalized then slash else normalized
