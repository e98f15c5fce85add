-- ===== src/Access/Accounts/Admins.antt =====
-- The administrators through a request on the accounts, create_user, update_user and delete_user of
-- gfc-platform/control-plane/api/app/admin.py.
use sip_proxy.Common.{
  ℕ, String, ◌≡◌, ◌∙◌, refl, sym, ap, Bool, true, false, ◌&&◌, Option, none, some, List, [], ◌∷◌,
  arith, inl, inr, Bool-cases, Option-cases, any, find, find-some, ◌==◌, str_eq, eq_iff,
  if◌then◌else◌,
}
use mathlib.Core.List.{Memᴰ}
use sip_proxy.Common.Http.{Http, ok, error, raise_if, ◌>>=◌, After, After-bind, After-ok}
use sip_proxy.Common.Text.{strip, lower, or_empty, starts_with}
use sip_proxy.Common.Text.Words.{after_space}
use sip_proxy.Access.Users.{PlatformUser, get_current_user, require_admin}
use sip_proxy.Access.Accounts.{
  UserUpdateIn, Accounts, create_user, get_user, username_taken, or_old, is_active_admin,
  check_disable, set_user, replace_user, update_user, remove_user, delete_user, Call, create,
  update, delete, handle_call, admin_request,
}

-- The call does not take the role of an administrator from the user of that id.
abbrev pub LeavesRole : ℕ → Call → Type 0
LeavesRole id (create new_id body) = Unit
LeavesRole id (update user_id body) =
    (user_id == id) ≡ true → (role : String) → body.role ≡ some role → role ≡ "admin"
LeavesRole id (delete user_id) = Unit

-- The table has an active administrator of that id.
abbrev pub is_admin_of : ℕ → List PlatformUser → Bool
is_admin_of id = any (λ (u : PlatformUser). u.id == id && is_active_admin u)

is_admin_of-replace_user :
    (id : ℕ) (u : PlatformUser) (users : List PlatformUser)
    → ((u.id == id) ≡ true → is_active_admin u ≡ true)
    → is_admin_of id users ≡ true
    → is_admin_of id (replace_user u users) ≡ true
unfolding replace_user
is_admin_of-replace_user id u [] h a = a
is_admin_of-replace_user id u (v ∷ vs) h a = elim (Bool-cases (v.id == u.id)) [
  | inl same ↦ rw same (ground (arith, h, a, same))
  | inr other ↦ rw other (ground (arith, h, a, is_admin_of-replace_user id u vs h))
]

is_admin_of-remove_user :
    (id removed : ℕ) (users : List PlatformUser)
    → (removed == id) ≡ false
    → is_admin_of id users ≡ true
    → is_admin_of id (remove_user removed users) ≡ true
unfolding remove_user
is_admin_of-remove_user id removed [] n a = a
is_admin_of-remove_user id removed (v ∷ vs) n a = elim (Bool-cases (v.id == removed)) [
  | inl same ↦ rw same (is_admin_of-remove_user id removed vs n (ground (arith, n, a, same)))
  | inr other ↦ rw other (ground (arith, n, a, is_admin_of-remove_user id removed vs n))
]

abbrev user_of : ℕ → List PlatformUser → Option PlatformUser
user_of id = find (λ (u : PlatformUser). u.id == id)

-- The current user is the active row of its id.
get_current_user-row :
    (decode : String → Option ℕ) (authorization : Option String) (users : List PlatformUser)
    (o : PlatformUser)
    → get_current_user decode authorization users ≡ ok o
    → (user_of o.id users ≡ some o) × (o.is_active ≡ true)
unfolding get_current_user
get_current_user-row decode authorization users o e =
    elim (Bool-cases (starts_with "bearer " (lower (or_empty authorization)))) [
      | inr missing ↦ absurd (let k = rw (missing, get_current_user) at e in cc)
      | inl sent ↦ elim (Option-cases (decode (strip (after_space (or_empty authorization))))) [
        | inl invalid ↦ absurd (let k = rw (sent, invalid, get_current_user) at e in cc)
        | inr (id, valid) ↦ elim (Option-cases (user_of id users)) [
          | inl unknown ↦ absurd (let k = rw (sent, valid, unknown, get_current_user) at e in cc)
          | inr (u, row) ↦
              let (same, on) =
                checked u.is_active u o (rw (sent, valid, row, get_current_user) at e) in
              let i : (u.id == id) ≡ true =
                (find-some (λ (v : PlatformUser). v.id == id) users u row).1 in
              let j : u.id ≡ id = ground arith in
              rw (← same) (ap (λ n. user_of n users) j ∙ row, on)
        ]
      ]
    ]
  where
    checked :
        (active : Bool) (u o : PlatformUser)
        → (if active then ok u else error 401 "user disabled or missing") ≡ ok o
        → (u ≡ o) × (active ≡ true)
    checked true u o e = (cc, refl)
    checked false u o e = absurd cc

-- The row that an administrator's id finds is an administrator's.
user_of-admin :
    (users : List PlatformUser) (o : PlatformUser)
    → user_of o.id users ≡ some o
    → is_active_admin o ≡ true
    → is_admin_of o.id users ≡ true
user_of-admin users o e a = go users (find-some (λ (v : PlatformUser). v.id == o.id) users o e).0
  where
    go : (rows : List PlatformUser) → Memᴰ o rows → is_admin_of o.id rows ≡ true
    go [] m = elim m [ ]
    go (v ∷ vs) (Memᴰ.head same) = rw (← same) (ground (arith, a))
    go (v ∷ vs) (Memᴰ.tail m) = ground (arith, go vs m)

After-get_user :
    (P : Accounts → Type 0) (id : ℕ) (users : List PlatformUser) (f : PlatformUser → Http Accounts)
    → ((u : PlatformUser) → user_of id users ≡ some u → After P (f u))
    → After P (get_user id users >>= f)
After-get_user P id users f h = elim (Option-cases (user_of id users)) [
  | inl e ↦ rw (e, get_user) tt
  | inr (u, e) ↦ rw (e, get_user) (h u e)
]

module _ (hash : String → String) (o : PlatformUser) (s : Accounts) where
  HasAdmin : Accounts → Type 0
  HasAdmin after = is_admin_of o.id after.users ≡ true

  own-role :
      (u : PlatformUser) (role : Option String)
      → ((r : String) → role ≡ some r → r ≡ "admin")
      → str_eq u.role "admin" ≡ true
      → str_eq (or_old role u.role) "admin" ≡ true
  own-role u none h a = a
  own-role u (some r) h a = (eq_iff r "admin").1 (h r refl)

  own-active :
      (u : PlatformUser) (active : Option Bool)
      → check_disable o u active s.users ≡ ok tt
      → (u.id == o.id) ≡ true
      → u.is_active ≡ true
      → or_old active u.is_active ≡ true
  unfolding check_disable
  own-active u none p same a = a
  own-active u (some true) p same a = refl
  own-active u (some false) p same a = absurd (let k = rw (same, check_disable) at p in cc)

  -- An administrator's own row stays one.
  set_user-admin :
      (user_id : ℕ) (body : UserUpdateIn) (u : PlatformUser)
      → user_of o.id s.users ≡ some o
      → is_active_admin o ≡ true
      → LeavesRole o.id (update user_id body)
      → user_of user_id s.users ≡ some u
      → check_disable o u body.is_active s.users ≡ ok tt
      → (u.id == o.id) ≡ true
      → is_active_admin (set_user hash body u) ≡ true
  unfolding set_user check_disable
  set_user-admin user_id body u row a leaves found passed same =
      let i : (u.id == user_id) ≡ true =
        (find-some (λ (v : PlatformUser). v.id == user_id) s.users u found).1 in
      let j : user_id ≡ o.id = ground arith in
      let both : some u ≡ some o = sym found ∙ ap (λ n. user_of n s.users) j ∙ row in
      let own : o ≡ u = cc in
      let admin : is_active_admin u ≡ true = rw (← own) a in
      let role = own-role u body.role (leaves (ground arith)) (ground (arith, admin)) in
      let active = own-active u body.is_active passed same (ground (arith, admin)) in
      rw (role, active) refl

  handle_call-HasAdmin :
      (call : Call)
      → user_of o.id s.users ≡ some o
      → is_active_admin o ≡ true
      → LeavesRole o.id call
      → After HasAdmin (handle_call hash o call s)
  unfolding HasAdmin handle_call create_user update_user delete_user
  handle_call-HasAdmin (create id body) row a leaves =
      let kept : is_admin_of o.id s.users ≡ true = user_of-admin s.users o row a in
      elim (Bool-cases (username_taken (strip body.username) s.users)) [
        | inl taken ↦ rw taken tt
        | inr free ↦ rw free (ground (arith, kept))
      ]
  handle_call-HasAdmin (update user_id body) row a leaves =
      After-get_user HasAdmin user_id s.users _ (λ u found.
        After-bind HasAdmin (check_disable o u body.is_active s.users) _ (λ _ passed.
          is_admin_of-replace_user o.id (set_user hash body u) s.users
            (set_user-admin user_id body u row a leaves found passed)
            (user_of-admin s.users o row a)))
  handle_call-HasAdmin (delete user_id) row a leaves =
      After-get_user HasAdmin user_id s.users _ (λ u found.
        After-bind HasAdmin (raise_if (u.id == o.id) 400 _) _ (λ _ passed.
          elim (Bool-cases (u.id == o.id)) [
            | inl same ↦ absurd (let k = rw same at passed in cc)
            | inr other ↦
                After-bind HasAdmin (raise_if (str_eq (lower (strip u.username)) "admin") 400 _) _
                  (λ _ _.
                    is_admin_of-remove_user o.id u.id s.users other (user_of-admin s.users o row a))
          ]))

-- A request on the accounts that passes the checks and succeeds leaves the user who made it an active
-- administrator of the table, unless it gives that user another role: an administrator can neither
-- disable nor delete himself.
pub admin_request-keeps_admin :
    (decode : String → Option ℕ) (hash : String → String) (authorization : Option String)
    (call : Call) (s s' : Accounts) (o : PlatformUser)
    → get_current_user decode authorization s.users ≡ ok o
    → LeavesRole o.id call
    → admin_request decode hash authorization call s ≡ ok s'
    → is_admin_of o.id s'.users ≡ true
unfolding HasAdmin admin_request require_admin
admin_request-keeps_admin decode hash authorization call s s' o current leaves e =
    let (row, on) = get_current_user-row decode authorization s.users o current in
    elim (Bool-cases (str_eq o.role "admin")) [
      | inr other ↦ absurd (let k = rw (current, other, admin_request) at e in cc)
      | inl admin ↦
          After-ok (HasAdmin hash o s) (handle_call hash o call s) s'
            (handle_call-HasAdmin hash o s call row (ground (arith, admin, on)) leaves)
            (rw (current, admin, admin_request) at e)
    ]
