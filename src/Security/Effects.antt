-- ===== src/Security/Effects.antt =====
-- What the handlers of src/daemon/rest/RestHandler.cpp change, and for whom.
use app_mesh.Prelude.{
  ap, subst, inl, inr, Bool, true, false, not, ◌&&◌, Option, none, some, List, String, str_eq, ◌≡◌,
  refl, arith, eq_iff, Option-cases, ltb, ◌≤◌,
}
use app_mesh.Dict.{get}
use app_mesh.Dict.Laws.{get-put, get-erase}
use app_mesh.Text.{text_length, std_string_trim}
use app_mesh.Security.Model.{
  missing_header, not_own_password, short_password, admin_lock, Outcome, returns, ◌>>=◌, ◌>>◌,
  Outcome-cases, or_throw, throw_if, Security, User, UserJson, get_user, change_user_passwd,
  lock_user, set_locked, add_user, del_user, add_role, del_role, update_key, stored_key,
  verify_user_key, user_from_json, update_user, get_role,
}
use app_mesh.Security.Login.{verify-change_user_passwd}
use app_mesh.Security.Access.{Outside, HttpRequest, get_jwt_user_name, permission_check}
use app_mesh.Security.Api.{
  Call, change_pwd, lock, unlock, user_add, user_del, role_update, role_delete, permission_of,
  expr_of, handle, checked, regex_search, jwt_admin_name, api_user_change_pwd, api_user_lock,
  api_user_unlock, api_user_add, api_user_del, api_role_update, api_role_delete,
}
use app_mesh.Security.Guards.{handle-checked}

lock_user-other :
    (b : Bool) (name other : String) (s : Security) {s' : Security}
    → lock_user b name s ≡ returns s'
    → str_eq name other ≡ false
    → get other s'.users ≡ get other s.users
unfolding lock_user get_user
lock_user-other b name other s {s'} e n = elim (Option-cases (get name s.users)) [
  | inl u ↦ absurd (ground arith)
  | inr (user, u) ↦ ground (arith, get-put name other (set_locked b user) s.users)
]

del_user-other :
    (name other : String) (s : Security) {s' : Security}
    → del_user name s ≡ returns s'
    → str_eq name other ≡ false
    → get other s'.users ≡ get other s.users
unfolding del_user get_user
del_user-other name other s {s'} e n = elim (Option-cases (get name s.users)) [
  | inl u ↦ absurd (ground arith)
  | inr (user, u) ↦ ground (arith, get-erase name other s.users)
]

del_role-users :
    (name : String) (s : Security) {s' : Security}
    → del_role name s ≡ returns s'
    → s'.users ≡ s.users
unfolding del_role get_role
del_role-users name s {s'} e = elim (Option-cases (get name s.roles)) [
  | inl u ↦ absurd (ground arith)
  | inr (role, u) ↦ ground arith
]

add_role-users :
    (perms : List String) (name : String) (s : Security) → (add_role perms name s).users ≡ s.users
unfolding add_role
add_role-users perms name s = refl

module _ (env : Outside) (enabled : Bool) where
  change_user_passwd-other :
      (name new other : String) (s : Security) {s' : Security}
      → change_user_passwd env.hash name new s ≡ returns s'
      → str_eq name other ≡ false
      → get other s'.users ≡ get other s.users
  unfolding change_user_passwd get_user
  change_user_passwd-other name new other s {s'} e n = elim (Option-cases (get name s.users)) [
    | inl u ↦ absurd (ground arith)
    | inr (user, u) ↦ ground (arith, get-put name other (update_key env.hash s new user) s.users)
  ]

  add_user-other :
      (name other : String) (json : Option UserJson) (s : Security) {r : Security × User}
      → add_user env.hash name json s ≡ returns r
      → str_eq name other ≡ false
      → get other r.0.users ≡ get other s.users
  unfolding add_user
  add_user-other name other json s {r} e n =
      elim (Outcome-cases (user_from_json name json s.roles)) [
        | inr (why, u) ↦ absurd (ground arith)
        | inl (none, u) ↦ absurd (ground arith)
        | inl (some user, u) ↦ elim (Option-cases (get name s.users)) [
          | inl m ↦ ground (arith, get-put name other (update_key env.hash s user.key user) s.users)
          | inr (old, m) ↦ ground (arith, get-put name other (update_user old user) s.users)
        ]
      ]

  checked-names :
      (permission expr : String) (message : HttpRequest) (s : Security) {names : String × String}
      → checked env enabled permission expr message s ≡ returns names
      → (regex_search env enabled message.path expr ≡ returns names.0)
        × (get_jwt_user_name env message ≡ returns names.1)
  unfolding checked
  checked-names permission expr message s {names} e =
      elim (Outcome-cases (permission_check env enabled message permission s)) [
        | inr (why, f) ↦ absurd (ground arith)
        | inl (v, f) ↦ elim (Outcome-cases (regex_search env enabled message.path expr)) [
          | inr (why, g) ↦ absurd (ground arith)
          | inl (path_name, g) ↦ elim (Outcome-cases (get_jwt_user_name env message)) [
            | inr (why, h) ↦ absurd (ground arith)
            | inl (token_name, h) ↦ (ground arith, ground arith)
          ]
        ]
      ]

  -- What is left of a handler once its checks gave the two names.
  abbrev effect : Call → String × String → HttpRequest → Security → Outcome Security
  effect change_pwd names message s = do
    header ← or_throw (get "New-Password" message.headers) missing_header
    let new_passwd = std_string_trim (env.decode64 header)
    throw_if (not (str_eq names.0 names.1)) not_own_password
    throw_if (ltb (text_length new_passwd) 3) short_password
    change_user_passwd env.hash names.1 new_passwd s
  effect lock names message s =
      throw_if (str_eq names.0 jwt_admin_name) admin_lock >> lock_user true names.0 s
  effect unlock names message s = lock_user false names.0 s
  effect user_add names message s = do
    json ← message.user_json
    added ← add_user env.hash names.0 json s
    returns added.0
  effect user_del names message s = del_user names.0 s
  effect role_update names message s = do
    permissions ← message.role_json
    returns (add_role permissions names.0 s)
  effect role_delete names message s = del_role names.0 s

  handle-effect :
      (call : Call) (names : String × String) (message : HttpRequest) (s : Security)
      → checked env enabled (permission_of call) (expr_of call) message s ≡ returns names
      → handle env enabled call message s ≡ effect call names message s
  unfolding handle permission_of expr_of api_user_change_pwd api_user_lock api_user_unlock
      api_user_add api_user_del api_role_update api_role_delete
  handle-effect change_pwd names message s c = rw (c) refl
  handle-effect lock names message s c = rw (c) refl
  handle-effect unlock names message s c = rw (c) refl
  handle-effect user_add names message s c = rw (c) refl
  handle-effect user_del names message s c = rw (c) refl
  handle-effect role_update names message s c = rw (c) refl
  handle-effect role_delete names message s c = rw (c) refl

  -- What a password change that succeeds has passed, and what it does.
  effect-change_pwd :
      (names : String × String) (message : HttpRequest) (s : Security) {s' : Security}
      → effect change_pwd names message s ≡ returns s'
      → (header : String) × (get "New-Password" message.headers ≡ some header)
        × (names.0 ≡ names.1)
        × (3 ≤ text_length (std_string_trim (env.decode64 header)))
        × (change_user_passwd env.hash names.1 (std_string_trim (env.decode64 header)) s
            ≡ returns s')
  effect-change_pwd names message s e = elim (Option-cases (get "New-Password" message.headers)) [
    | inl n ↦ absurd (ground arith)
    | inr (header, h) ↦
        (header, h, ground (arith, eq_iff names.0 names.1), ground arith, ground arith)
  ]

  -- Whether a handler is about that user: the handlers for roles are about none.
  abbrev pub affects : Call → String → String → Bool
  affects role_update name other = false
  affects role_delete name other = false
  affects change_pwd name other = str_eq name other
  affects lock name other = str_eq name other
  affects unlock name other = str_eq name other
  affects user_add name other = str_eq name other
  affects user_del name other = str_eq name other

  effect-other :
      (call : Call) (names : String × String) (message : HttpRequest) (other : String)
      (s : Security) {s' : Security}
      → effect call names message s ≡ returns s'
      → affects call names.0 other ≡ false
      → get other s'.users ≡ get other s.users
  effect-other change_pwd names message other s {s'} e n =
      let found = effect-change_pwd names message s e in
      ground (
        arith,
        found.2,
        change_user_passwd-other names.1 (std_string_trim (env.decode64 found.0)) other s found.4,
      )
  effect-other lock names message other s {s'} e n =
      ground (arith, lock_user-other true names.0 other s {s' = s'})
  effect-other unlock names message other s {s'} e n = lock_user-other false names.0 other s e n
  effect-other user_add names message other s {s'} e n = elim (Outcome-cases message.user_json) [
    | inr (why, j) ↦ absurd (ground arith)
    | inl (json, j) ↦ elim (Outcome-cases (add_user env.hash names.0 json s)) [
      | inr (why, a) ↦ absurd (ground arith)
      | inl (added, a) ↦ ground (arith, add_user-other names.0 other json s a n)
    ]
  ]
  effect-other user_del names message other s {s'} e n = del_user-other names.0 other s e n
  effect-other role_update names message other s {s'} e n = elim (Outcome-cases message.role_json) [
    | inr (why, j) ↦ absurd (ground arith)
    | inl (perms, j) ↦ ground (arith, add_role-users perms names.0 s)
  ]
  effect-other role_delete names message other s {s'} e n =
      ap (λ users. get other users) (del_role-users names.0 s e)

  -- A handler for users leaves every user alone but the one that its path names, and the handlers for
  -- roles leave every user alone.
  pub handle-others :
      (call : Call) (message : HttpRequest) (other : String) (s : Security) {s' : Security}
      {name : String}
      → handle env enabled call message s ≡ returns s'
      → regex_search env enabled message.path (expr_of call) ≡ returns name
      → affects call name other ≡ false
      → get other s'.users ≡ get other s.users
  handle-others call message other s {s'} {name} e p n =
      let found = handle-checked env enabled call message s e in
      let path = (checked-names (permission_of call) (expr_of call) message s found.1).0 in
      let same : name ≡ found.0.0 = ground arith in
      effect-other call found.0 message other s {s' = s'}
        (ground (arith, handle-effect call found.0 message s found.1))
        (subst (λ x. affects call x other ≡ false) same n)

  -- A password is changed only for the user whose name is in the token and in the path, and only to
  -- one of three characters or more; that user then logs in exactly with passwords that give the same
  -- stored key, unless locked.
  pub change_pwd-own :
      (message : HttpRequest) (tried : String) (s : Security) {s' : Security}
      → handle env enabled change_pwd message s ≡ returns s'
      → (name : String) × (header : String) × (user : User) × (get_jwt_user_name env message
          ≡ returns name)
        × (regex_search env enabled message.path (expr_of change_pwd) ≡ returns name)
        × (get "New-Password" message.headers ≡ some header)
        × (3 ≤ text_length (std_string_trim (env.decode64 header)))
        × (get name s.users ≡ some user)
        × (verify_user_key env.hash name tried s'
            ≡ returns (
              str_eq
                    (stored_key env.hash s (std_string_trim (env.decode64 header)))
                    (stored_key env.hash s tried)
                  && not user.locked,
              user.group,
            ))
  change_pwd-own message tried s {s'} e =
      let found = handle-checked env enabled change_pwd message s e in
      let names = checked-names (permission_of change_pwd) (expr_of change_pwd) message s found.1 in
      let change =
        effect-change_pwd found.0 message s {s' = s'}
          (ground (arith, handle-effect change_pwd found.0 message s found.1)) in
      let login =
        verify-change_user_passwd env.hash s found.0.1 (std_string_trim (env.decode64 change.0))
          tried change.4 in
      (
        found.0.1,
        change.0,
        login.0,
        names.1,
        ground (arith, names.0, change.2),
        change.1,
        change.3,
        login.1,
        login.2,
      )

  -- No request to lock a user changes the user admin.
  pub lock-admin :
      (message : HttpRequest) (s : Security) {s' : Security}
      → handle env enabled lock message s ≡ returns s'
      → get jwt_admin_name s'.users ≡ get jwt_admin_name s.users
  lock-admin message s {s'} e =
      let found = handle-checked env enabled lock message s e in
      let rest : effect lock found.0 message s ≡ returns s' =
        ground (arith, handle-effect lock found.0 message s found.1) in
      effect-other lock found.0 message jwt_admin_name s {s' = s'} rest (ground arith)
