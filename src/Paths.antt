-- ===== src/Paths.antt =====
-- internal/core/validate.go: path patterns, their segments and their parameters.
mod Trim
mod Segments
pub mod Validate
pub mod Normal
mod Tests
unfoldable pub use Trim.*
unfoldable pub use Segments.*
