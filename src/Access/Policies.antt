-- ===== src/Access/Policies.antt =====
-- Field and resource rules of gfc-platform/control-plane/api/app/policies.py. A request body is the
-- dictionary of the fields that were set, `body.model_dump(exclude_unset=True)`.
pub mod Filtering
pub mod Deletion
use Prim.Native.String
use sip_proxy.Common.{
  ℕ, String, Bool, true, false, not, ◌&&◌, Option, none, some, List, [], ◌∷◌, if◌then◌else◌, str_eq,
  filter,
}
use sip_proxy.Common.Text.{elem, sorted, join}
use sip_proxy.Common.Http.{Http, ok, error, raise_if, ◌>>=◌, ◌>>◌}
use sip_proxy.Common.Dict.{Dict, lookup, insert, keys, Json, truthy, str}
use sip_proxy.Client.Models.{ClientDevice}
use sip_proxy.Client.Sessions.{session_active}
use sip_proxy.Access.Roles.{
  normalize_role, operator_line_patch_fields, operator_node_patch_fields,
  operator_client_patch_fields, line_critical_patch_fields, node_critical_patch_fields,
  client_critical_patch_fields,
}

abbrev pub is_admin : String → Bool
is_admin role = str_eq (normalize_role (some role)) "admin"

unfoldable pub forbidden_fields : String → Dict Json → List String → List String
forbidden_fields role fields allowed =
    if is_admin role then [] else filter (λ k. not (elem k allowed)) (keys fields)

denial : List String → String → String
denial forbidden resource =
    String.◌++◌ "permission denied: cannot modify "
      (String.◌++◌ resource (String.◌++◌ " fields: " (join ", " (sorted forbidden))))

unfoldable pub raise_if_forbidden : List String → String → Http (Unit {0})
unfolding denial
raise_if_forbidden [] resource = ok tt
raise_if_forbidden (k ∷ ks) resource = error 403 (denial (k ∷ ks) resource)

-- The second check of each filter: the critical fields, unless the role is admin.
unfoldable pub raise_if_critical : String → Dict Json → List String → String → Http (Unit {0})
unfolding raise_if_forbidden
raise_if_critical role fields critical resource =
    if is_admin role
    then ok tt
    else raise_if_forbidden (filter (λ k. elem k critical) (keys fields)) resource

-- `data["status"]` follows `data["is_enabled"]`
unfoldable pub set_status : Dict Json → Dict Json
set_status fields = elim (lookup "is_enabled" fields) [
  | none ↦ fields
  | some enabled ↦ insert "status" (str (if truthy enabled then "active" else "inactive")) fields
]

unfoldable pub filter_line_update : String → Dict Json → Http (Dict Json)
unfolding forbidden_fields raise_if_forbidden raise_if_critical set_status
filter_line_update role fields = do
  raise_if_forbidden (forbidden_fields role fields operator_line_patch_fields) "line"
  raise_if_critical role fields line_critical_patch_fields "line"
  ok (set_status fields)

unfoldable pub filter_node_update : String → Dict Json → Http (Dict Json)
unfolding forbidden_fields raise_if_forbidden raise_if_critical
filter_node_update role fields = do
  raise_if_forbidden (forbidden_fields role fields operator_node_patch_fields) "node"
  raise_if_critical role fields node_critical_patch_fields "node"
  ok fields

unfoldable pub filter_client_device_update : String → Dict Json → Http (Dict Json)
unfolding forbidden_fields raise_if_forbidden raise_if_critical
filter_client_device_update role fields = do
  raise_if_forbidden (forbidden_fields role fields operator_client_patch_fields) "client device"
  raise_if_critical role fields client_critical_patch_fields "client device"
  ok fields

unfoldable pub is_operator_deletable_client : ℕ → ClientDevice → Bool → Bool
is_operator_deletable_client now device online = if online then false else elim device.line_id [
  | some _ ↦ false
  | none ↦ if session_active now device then false else true
]

unfoldable pub assert_client_device_deletable : String → ℕ → ClientDevice → Bool → Http (Unit {0})
unfolding is_operator_deletable_client
assert_client_device_deletable role now device online =
    let r = normalize_role (some role) in
    if str_eq r "admin"
    then ok tt
    else if str_eq r "auditor"
    then error 403 "permission denied"
    else if str_eq r "operator"
    then (if is_operator_deletable_client now device online
        then ok tt
        else error 403 "只能删除无线路、无会话的离线客户端")
    else error 403 "permission denied"

unfoldable pub assert_line_code_refresh_allowed : String → Bool → Http (Unit {0})
assert_line_code_refresh_allowed role rotate_uuid =
    raise_if (rotate_uuid && not (is_admin role)) 403
      "permission denied: rotate_uuid requires admin"
