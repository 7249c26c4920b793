-- ===== src/Views.antt =====
-- internal/http/handlers/view_helpers.go: what the pages show of rows, errors and secrets.
pub mod Masks
pub mod Json
pub mod Patterns
pub mod Errors
pub mod Tones
pub mod Times
pub mod UserList
mod Tests
