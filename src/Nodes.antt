-- ===== src/Nodes.antt =====
-- Forwarding nodes on the control plane, gfc-platform/control-plane/api/app: the node table, traffic
-- accounting, alerts and the monitor, tunnel networks, and the configuration that a node is sent.
pub mod Models
pub mod Traffic
pub mod Alerts
pub mod Monitor
pub mod Active
pub mod Tokens
pub mod TunnelPool
pub mod Sanitize
pub mod Config
pub mod Endpoints
mod Tests
