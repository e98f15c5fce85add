-- ===== src/Access/Users.antt =====
-- The user behind a request, gfc-platform/control-plane/api/app/auth_deps.py. `decode` is what
-- `decode_access_token` makes of a token: the user's id, 0 where it has none, or none where the token
-- does not hold.
use sip_proxy.Common.{
  ℕ, String, Bool, not, Option, none, some, List, find, ◌==◌, str_eq, if◌then◌else◌,
}
use sip_proxy.Common.Text.{strip, lower, or_empty, starts_with}
use sip_proxy.Common.Text.Words.{after_space}
use sip_proxy.Common.Http.{Http, ok, error, ◌>>◌}
use sip_proxy.Access.Roles.{assert_role_action}

pub record PlatformUser : Type 0 where
  pub id : ℕ
  pub username : String
  pub password_hash : Option String
  pub role : String
  pub is_active : Bool

unfoldable pub get_current_user :
    (String → Option ℕ) → Option String → List PlatformUser → Http PlatformUser
unfolding lower starts_with strip after_space
get_current_user decode authorization users =
    if not (starts_with "bearer " (lower (or_empty authorization)))
    then error 401 "not authenticated"
    else elim (decode (strip (after_space (or_empty authorization)))) [
      | none ↦ error 401 "invalid or expired token"
      | some user_id ↦ elim (find (λ (u : PlatformUser). u.id == user_id) users) [
        | none ↦ error 401 "user disabled or missing"
        | some user ↦ if user.is_active then ok user else error 401 "user disabled or missing"
      ]
    ]

unfoldable pub require_admin : PlatformUser → Http PlatformUser
require_admin user = if str_eq user.role "admin" then ok user else error 403 "admin required"

unfoldable pub require_action : String → PlatformUser → Http PlatformUser
require_action action user = do assert_role_action (some user.role) action; ok user
