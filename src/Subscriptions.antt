-- ===== src/Subscriptions.antt =====
-- internal/subscriptions/subscriptions.go: the texts that a user's client subscribes to.
pub mod Url
pub mod Models
pub mod Fields
pub mod Bodies
pub mod Texts
pub mod Service
pub mod Tags
pub mod Slugs
pub mod Formats
mod Tests
pub mod Failures
