-- ===== src/Telemetry.antt =====
-- internal/telemetry, and its requests of internal/nodes/agent_client.go: the sessions that the node
-- agents report, as the panel shows them.
pub mod Models
pub mod Resolve
pub mod Views
pub mod Lists
pub mod Requests
pub mod Pages
mod Tests
