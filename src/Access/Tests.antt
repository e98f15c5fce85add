-- ===== src/Access/Tests.antt =====
-- The theorems on roles and policies, at concrete requests.
use sip_proxy.Common.{
  ℕ, String, Option, ◌≡◌, refl, true, false, none, some, [], ◌∷◌, any, str_eq, if◌then◌else◌,
}
use sip_proxy.Common.Http.{ok, error}
use sip_proxy.Common.Dict.{Dict, Json, bool, str, lookup, insert, truthy}
use sip_proxy.Client.Models.{ClientDevice}
use sip_proxy.Access.Policies.{set_status}
use sip_proxy.Access.Accounts.{
  Accounts, update, delete, admin_request, is_active_admin, delete_user, update_user, check_disable,
}
use sip_proxy.Access.Accounts.Admins.{is_admin_of, admin_request-keeps_admin}
use sip_proxy.Access.Users.{get_current_user, PlatformUser, require_admin}

-- A request that sets the remark and switches a line off.
abbrev switch_off : Dict Json
switch_off = ("remark", str "moved") ∷ ("is_enabled", bool false) ∷ []

abbrev stray : ClientDevice
stray = record {
  id = 5;
  device_key = "AA";
  name = "office";
  lan_mac = none;
  device_id = none;
  line_id = none;
  reverse_ssh_port = none;
  reverse_http_port = none;
  ssh_public_key = none;
  reverse_ssh_session_expires_at = some 900;
  reverse_ssh_session_targets = none;
  reverse_ssh_tunnel_reported_at = none;
  proxy_mode = "rule";
  routing_scheme = "split";
  name_source = none;
  binding_revoked_at = none;
  code_cleared_at = none;
  agent_version = none;
  is_active = true;
  last_seen_at = none;
  last_metrics = none;
  pending_command = none;
  last_upgrade = none;
}

-- A line that is switched off is inactive.
set_status_test : lookup "status" (set_status switch_off) ≡ some (str "inactive")
unfolding set_status lookup truthy insert
set_status_test = refl

abbrev owner : PlatformUser
owner = record { id = 1; username = "root"; password_hash = none; role = "admin"; is_active = true }

abbrev accounts : Accounts
accounts = record {
  users =
      owner
      ∷ record {
        id = 2;
        username = "ann";
        password_hash = none;
        role = "operator";
        is_active = true;
      }
      ∷ [];
  log = [];
}

abbrev token_user : String → Option ℕ
token_user token = if str_eq token "t1" then some 1 else none

abbrev without_ann : Accounts
without_ann = record {
  users = owner ∷ [];
  log =
      record { username = "root"; action = "delete_user"; target = "ann"; detail = some "id=2" }
      ∷ [];
}

delete_test :
    admin_request token_user (λ p. p) (some "Bearer t1") (delete 2) accounts ≡ ok without_ann
unfolding admin_request get_current_user require_admin delete_user
delete_test = refl

admin_request-keeps_admin_example : is_admin_of 1 without_ann.users ≡ true
unfolding get_current_user
admin_request-keeps_admin_example =
    admin_request-keeps_admin token_user (λ p. p) (some "Bearer t1") (delete 2) accounts without_ann
      owner refl tt delete_test

-- The only administrator may give himself another role.
demotion_test :
    (elim (admin_request token_user
      (λ p. p)
      (some "Bearer t1")
      (update 1 (record { role = some "operator"; is_active = none; password = none }))
      accounts) [ ok s ↦ any is_active_admin s.users | error _ _ ↦ true ])
    ≡ false
unfolding admin_request get_current_user require_admin update_user check_disable
demotion_test = refl
