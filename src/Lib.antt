-- ===== src/Lib.antt =====
-- The control plane of the GFC proxy platform, gfc-platform/control-plane/api/app: a service with a
-- database of forward nodes, lines (tunnel endpoints on a node), client devices, alerts and traffic
-- samples. Devices activate themselves with a line code; nodes report metrics; people with roles
-- change rows. The parts share the database: activation binds a line to a device and takes a pair of
-- reverse tunnel ports for it, a heartbeat of a node feeds traffic accounting and the log of alerts.
--
-- Common        texts, lists, dictionaries, JSON, integers, and handlers that answer a value or an
--               HTTP error
-- Access        Roles: permissions.py. Policies: policies.py. Users: auth_deps.py. Accounts:
--               create_user, update_user and delete_user of admin.py. Tids: the names of
--               new lines there. Lines: create_line and update_line there
-- Client        Models: the table of client devices in models.py. Ports and Sessions: reverse_ssh.py
--               (allocate_reverse_ports, release_device_reverse_ports, ensure_device_reverse_ports,
--               session_state). Activation: activate_client of clients.py. Heartbeat: _auth_client,
--               _record_tunnel_flow and client_heartbeat of clients.py. Tables: the rows that the
--               handlers share, in models.py. Custody: update, soft reset and upgrade of a device in
--               admin.py, with queue_device_upgrade of artifacts.py; Custody/Departure: hard
--               retirement and return; Custody/Remote: remote sessions, with tunnel_ready of
--               reverse_ssh.py; Custody/Lines: delete_line; Custody/Spec and Custody/Runs: the
--               custody of a device key as a machine of its own, and sequences of calls;
--               Custody/Linked and Custody/LinkedRuns: the lines that devices are bound to.
--               Codes: line_code.py
-- Nodes         Models: the table of nodes in models.py, and node_online.py. Traffic: node_traffic.py.
--               Alerts: node_health.py. Monitor: monitor.py, and format_socks_address of
--               socks_parse.py. Active: active_alerts.py. TunnelPool: tunnel_pool.py.
--               Sanitize: metrics_util.py. Config: node_config.py, with the passwords and live modes of
--               hy2_util.py and parse_line_platforms of live_catalog.py
--               Tokens: _auth_node of main.py. Endpoints: activate_node, bootstrap_check, heartbeat and
--               ack_config of main.py, with node_public_ip.py
-- Live          Catalog: the tasks of a node in live_catalog.py. Reports: the checks and the stored
--               results there, and report_live_resolve of main.py. Resolver: live_resolve.py of
--               gfc-platform/node-agent/node_agent, with the reports that runner.py makes of it
-- Agent         SocksHealth: socks_health.py of gfc-platform/node-agent/node_agent. Routes:
--               apply_static_routes of routes.py there, against a machine that runs the commands
--
-- Functions keep their names, without a leading underscore. A handler takes the state it reads and
-- returns the state it leaves; an `HTTPException` is `error status detail`, and after one nothing is
-- committed. A table is a list of rows, a row a record of the columns that the modelled code uses.
-- The session's object for a row is the row itself: a change of it replaces the row of its id.
--
-- Bounds and conventions. A time is a whole number of seconds since the epoch, the same through one
-- call; the clock and random values are arguments. Texts are trimmed and put in lower or upper case
-- by the rules of ASCII. A percentage of a quota is computed as in floats of 53 binary digits, for
-- numbers of at most 4096 of them. The session does not flush by itself (db.py): alerts, traffic
-- samples and stored results that a transaction adds are not seen by its queries, and wait beside the
-- table for the commit. The search for a port pair recurses on fuel ssh_port_max + 1, which is enough
-- since each round goes up by at least one port and ends above ssh_port_max; the search for a tunnel
-- network uses the number of candidates, 16384; a printed number uses fuel n + 1, since n / 10 < n.
--
-- Not modelled: SMTP and the network, hashing and key generation (their results are arguments of the
-- handlers), the JSON document in a line code (the request of an activation carries what it says), SQL
-- errors at commit and the constraints that raise them, but for a live result that is added twice, the
-- file of authorised keys, negative numbers in the update of a device, and the parts of the platform
-- outside these files: the client in gfc-client, the web interfaces, the deployment
-- scripts, and the rest of the node agent.
pub mod Common
pub mod Client
pub mod Nodes
pub mod Access
pub mod Agent
pub mod Live
