-- ===== src/Access.antt =====
-- Who may do what on the control plane: the roles of
-- gfc-platform/control-plane/api/app/permissions.py, the field rules of policies.py, the users behind
-- requests of auth_deps.py and the accounts of admin.py beside it.
pub mod Roles
pub mod Policies
pub mod Users
pub mod Accounts
pub mod Tids
pub mod Lines
mod Tests
