-- ===== src/Users.antt =====
-- Users, their access to nodes, and the expiry reconciler (internal/users).
pub mod Models
pub mod Repository
pub mod Updates
pub mod Service
pub mod Expiry
pub mod Dashboard
pub mod Lookups
mod Journal
mod Tests
