-- ===== src/Agent.antt =====
-- The agent on a forward node, gfc-platform/node-agent/node_agent.
pub mod SocksHealth
pub mod Streaks
pub mod Routes
mod Tests
