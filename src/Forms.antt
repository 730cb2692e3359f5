-- ===== src/Forms.antt =====
-- internal/core/validate.go, but for the paths: the checks of the other fields of a form.
pub mod Pattern
pub mod Slug
pub mod Account
pub mod Headers
pub mod Endpoint
pub mod Collection
mod Tests
