-- ===== src/Access/Roles.antt =====
-- gfc-platform/control-plane/api/app/permissions.py. A role is text from the database or a request;
-- `none` is Python's None.
pub mod Levels
use sip_proxy.Common.{String, Bool, Option, List, [], ◌∷◌, ◌++◌, if◌then◌else◌, str_eq}
use sip_proxy.Common.Text.{strip, lower, elem, sorted, or_empty}
use sip_proxy.Common.Http.{Http, ok, error}
use Prim.Native.String

abbrev pub valid_roles : List String
valid_roles = "admin" ∷ "operator" ∷ "auditor" ∷ []

abbrev pub valid_actions : List String
valid_actions =
    "read" ∷ "read_sensitive" ∷ "write_safe" ∷ "write_critical" ∷ "delete" ∷ "admin" ∷ []

-- `ROLE_ACTIONS.get(role, frozenset())`
unfoldable pub role_actions : String → List String
role_actions role =
    if str_eq role "admin"
    then valid_actions
    else if str_eq role "operator"
    then "read" ∷ "read_sensitive" ∷ "write_safe" ∷ []
    else if str_eq role "auditor"
    then "read" ∷ []
    else []

abbrev pub operator_line_patch_fields : List String
operator_line_patch_fields =
    "remark" ∷ "socks_remark" ∷ "name" ∷ "country" ∷ "bandwidth_mbps" ∷ "is_enabled" ∷ "status"
    ∷ "socks_udp_over_tcp" ∷ "live_mode" ∷ "hy2_brutal_enabled" ∷ "live_platforms" ∷ []

abbrev pub operator_node_patch_fields : List String
operator_node_patch_fields = "name" ∷ "region" ∷ "country" ∷ []

abbrev pub operator_client_patch_fields : List String
operator_client_patch_fields = "name" ∷ "routing_scheme" ∷ "is_active" ∷ []

abbrev pub line_critical_patch_fields : List String
line_critical_patch_fields =
    "node_id" ∷ "source_cidrs" ∷ "socks_profile_id" ∷ "flow_stats_enabled" ∷ []

abbrev pub node_critical_patch_fields : List String
node_critical_patch_fields = "connect_mode" ∷ "vpn_config" ∷ "static_routes" ∷ "is_active" ∷ []

abbrev pub client_critical_patch_fields : List String
client_critical_patch_fields = "line_id" ∷ "reverse_ssh_port" ∷ []

abbrev common_menus : List String
common_menus =
    "dashboard" ∷ "nodes" ∷ "lines" ∷ "live-catalog" ∷ "client-devices" ∷ "traffic" ∷ "health"
    ∷ "proxies" ∷ []

-- `MENU_KEYS_BY_ROLE.get(role, MENU_KEYS_BY_ROLE["operator"])`
unfoldable pub menu_keys : String → List String
menu_keys role =
    if str_eq role "admin"
    then common_menus ++ ("settings" ∷ "users" ∷ "logs" ∷ "help" ∷ [])
    else common_menus ++ ("logs" ∷ "help" ∷ [])

unfoldable pub normalize_role : Option String → String
normalize_role role =
    let r = lower (strip (or_empty role)) in if elem r valid_roles then r else "operator"

unfoldable pub role_allows : Option String → String → Bool
unfolding role_actions
role_allows role action = elem action (role_actions (normalize_role role))

unfoldable pub can_remote_access : Option String → Bool
can_remote_access role = elem (normalize_role role) ("admin" ∷ "operator" ∷ [])

pub record UserPermissions : Type 0 where
  pub actions : List String
  pub menus : List String
  pub can_remote_access : Bool
  pub can_delete_structural : Bool
  pub can_write_traffic_billing : Bool

unfoldable pub permissions_payload : Option String → UserPermissions
unfolding role_actions menu_keys can_remote_access
permissions_payload role =
    let r = normalize_role role in
    record {
      actions = sorted (role_actions r);
      menus = menu_keys r;
      can_remote_access = can_remote_access (Option.some r);
      can_delete_structural = str_eq r "admin";
      can_write_traffic_billing = str_eq r "admin";
    }

unfoldable pub assert_valid_role : String → Http String
assert_valid_role role =
    let r = lower (strip role) in
    if elem r valid_roles then ok r else error 400 (String.◌++◌ "invalid role: " role)

unfoldable pub assert_role_action : Option String → String → Http (Unit {0})
unfolding role_allows
assert_role_action role action =
    if role_allows role action then ok tt else error 403 "permission denied"
