-- ===== src/Client.antt =====
-- Client gateways on the control plane: the device table, the reverse SSH ports and sessions,
-- activation by a line code, heartbeats, and what an administrator does to a device; clients.py,
-- reverse_ssh.py, line_code.py and admin.py of gfc-platform/control-plane/api/app.
pub mod Models
pub mod Sessions
pub mod Ports
pub mod Tables
pub mod Activation
pub mod Heartbeat
pub mod Custody
pub mod Codes
mod Tests
