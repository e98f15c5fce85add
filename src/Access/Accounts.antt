-- ===== src/Access/Accounts.antt =====
-- The accounts of the platform's people: create_user, update_user and delete_user of
-- gfc-platform/control-plane/api/app/admin.py, behind the checks of auth_deps.py. The hash of a
-- password and the id of a new row are arguments. A field set to null ends in an error of the
-- database, so a field of a request is missing or has a value.
pub mod Admins
use sip_proxy.Common.{
  ℕ, String, Bool, true, false, not, ◌&&◌, Option, none, some, List, [], ◌∷◌, any, filter, find,
  ◌==◌, str_eq, if◌then◌else◌,
}
use sip_proxy.Common.Text.{strip, lower, concat}
use sip_proxy.Common.Text.Numbers.{show}
use sip_proxy.Common.Http.{Http, ok, error, raise_if, ◌>>=◌, ◌>>◌}
use sip_proxy.Access.Users.{PlatformUser, get_current_user, require_admin}

pub record UserIn : Type 0 where
  pub username : String
  pub password : String
  pub role : String

pub record UserUpdateIn : Type 0 where
  pub role : Option String
  pub is_active : Option Bool
  pub password : Option String

-- A row of the operation log, the newest first.
pub record OperationLog : Type 0 where
  pub username : String
  pub action : String
  pub target : String
  pub detail : Option String

pub record Accounts : Type 0 where
  pub users : List PlatformUser
  pub log : List OperationLog

abbrev pub log_user_op : PlatformUser → String → String → Option String → Accounts → Accounts
log_user_op operator action target detail s = record s {
  log =
      record { username = operator.username; action = action; target = target; detail = detail }
      ∷ s.log;
}

-- The id of the row of that name, where there is one and it is not 0.
abbrev pub username_taken : String → List PlatformUser → Bool
username_taken name users = elim (find (λ (u : PlatformUser). str_eq u.username name) users) [
  | none ↦ false
  | some u ↦ not (u.id == 0)
]

unfoldable pub create_user :
    (String → String) → ℕ → PlatformUser → UserIn → Accounts → Http Accounts
unfolding strip
create_user hash id operator body s = do
  raise_if (username_taken (strip body.username) s.users) 400 "用户名已存在"
  ok (
      log_user_op operator "create_user" (strip body.username) none (record s {
        users =
            record {
              id = id;
              username = strip body.username;
              password_hash = some (hash body.password);
              role = body.role;
              is_active = true;
            }
            ∷ s.users;
      }))

abbrev pub get_user : ℕ → List PlatformUser → Http PlatformUser
get_user id users = elim (find (λ (u : PlatformUser). u.id == id) users) [
  | none ↦ error 404 "user not found"
  | some u ↦ ok u
]

abbrev pub is_active_admin : PlatformUser → Bool
is_active_admin u = str_eq u.role "admin" && u.is_active

-- The refusals of a request that disables a user.
unfoldable pub check_disable :
    PlatformUser → PlatformUser → Option Bool → List PlatformUser → Http (Unit {0})
check_disable operator u none users = ok tt
check_disable operator u (some true) users = ok tt
check_disable operator u (some false) users = do
  raise_if (u.id == operator.id) 400 "不能禁用当前登录账号"
  raise_if
      (is_active_admin u
        && not (any (λ (v : PlatformUser). is_active_admin v && not (v.id == u.id)) users))
      400 "不能禁用最后一个启用的超级管理员"

abbrev pub or_old {ℓ} : {A : Type ℓ} → Option A → A → A
or_old none old = old
or_old (some v) old = v

unfoldable pub set_user : (String → String) → UserUpdateIn → PlatformUser → PlatformUser
set_user hash body u = record u {
  password_hash = elim body.password [ none ↦ u.password_hash | some p ↦ some (hash p) ];
  role = or_old body.role u.role;
  is_active = or_old body.is_active u.is_active;
}

unfoldable pub replace_user : PlatformUser → List PlatformUser → List PlatformUser
replace_user u [] = []
replace_user u (v ∷ vs) = let rest = replace_user u vs in if v.id == u.id then u ∷ vs else v ∷ rest

unfoldable pub update_user :
    (String → String) → ℕ → PlatformUser → UserUpdateIn → Accounts → Http Accounts
unfolding set_user replace_user
update_user hash user_id operator body s = do
  u ← get_user user_id s.users
  check_disable operator u body.is_active s.users
  ok (
      log_user_op operator "update_user" u.username none
        (record s { users = replace_user (set_user hash body u) s.users }))

unfoldable pub remove_user : ℕ → List PlatformUser → List PlatformUser
remove_user id = filter (λ (u : PlatformUser). not (u.id == id))

unfoldable pub delete_user : ℕ → PlatformUser → Accounts → Http Accounts
unfolding strip lower remove_user concat show
delete_user user_id operator s = do
  u ← get_user user_id s.users
  raise_if (u.id == operator.id) 400 "不能删除当前登录账号"
  raise_if (str_eq (lower (strip u.username)) "admin") 400 "内置账号 admin 不能删除，只能禁用"
  ok (
      log_user_op operator "delete_user" u.username (some (concat ("id=" ∷ show user_id ∷ [])))
        (record s { users = remove_user u.id s.users }))

-- A request on the accounts.
pub data Call : Type 0 where
  create : (id : ℕ) → UserIn → Call
  update : (user_id : ℕ) → UserUpdateIn → Call
  delete : (user_id : ℕ) → Call

unfoldable pub handle_call : (String → String) → PlatformUser → Call → Accounts → Http Accounts
handle_call hash operator (create id body) s = create_user hash id operator body s
handle_call hash operator (update user_id body) s = update_user hash user_id operator body s
handle_call hash operator (delete user_id) s = delete_user user_id operator s

-- The checks of the routes, and the handler.
unfoldable pub admin_request :
    (String → Option ℕ) → (String → String) → Option String → Call → Accounts → Http Accounts
unfolding handle_call
admin_request decode hash authorization call s = do
  user ← get_current_user decode authorization s.users
  operator ← require_admin user
  handle_call hash operator call s
