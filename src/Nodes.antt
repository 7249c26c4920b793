-- ===== src/Nodes.antt =====
-- Nodes, the client of the node agents, and the manager that keeps both in step (internal/nodes).
pub mod Models
pub mod Repository
pub mod Rows
pub mod Updates
pub mod Client
pub mod Status
pub mod Sync
pub mod Manager
pub mod Dashboard
pub mod Samples
mod Tests
