-- ===== src/Security/Guards.antt =====
-- Who may do what through the handlers of src/daemon/rest/RestHandler.cpp.
use app_mesh.Prelude.{
  inl, inr, Bool, true, false, some, [], String, ◌≡◌, ◌↔◌, ◌⊎◌, refl, arith, Option-cases,
}
use app_mesh.Dict.{get, member}
use app_mesh.Security.Model.{
  Error, returns, throws, Outcome-cases, Security, User, get_user, any_role_has,
  get_user_permissions,
}
use app_mesh.Security.Roles.{member-permission_set}
use app_mesh.Security.Access.{
  Claims, Outside, HttpRequest, get_jwt_token, permission_check, verify_token,
}
use app_mesh.Security.Api.{
  Call, change_pwd, lock, unlock, user_add, user_del, role_update, role_delete, permission_of,
  documented_permission, expr_of, handle, checked, api_user_change_pwd, api_user_lock,
  api_user_unlock, api_user_add, api_user_del, api_role_update, api_role_delete,
}

module _ (env : Outside) where
  -- A request carries a token that is verified, for a user that exists, is not locked and has a role
  -- with the permission.
  pub record Authorized (message : HttpRequest) (permission : String) (s : Security) : Type 0 where
    pub claims : Claims
    pub user_name : String
    pub group : String
    pub user : User
    pub decodes : env.decode (get_jwt_token message) ≡ some claims
    pub verifies : env.verify (get_jwt_token message) ≡ true
    pub names : claims.name ≡ some user_name
    pub groups : claims.group ≡ some group
    pub exists : get user_name s.users ≡ some user
    pub unlocked : user.locked ≡ false
    pub permits : any_role_has user.roles permission ≡ true

  permission_check-Authorized :
      (message : HttpRequest) (permission : String) (s : Security)
      → permission_check env true message permission s ≡ returns tt
      → Authorized message permission s
  unfolding permission_check verify_token get_user get_user_permissions member
  permission_check-Authorized message permission s e =
      elim (Option-cases (env.decode (get_jwt_token message))) [
        | inl d ↦ absurd (ground arith)
        | inr (claims, d) ↦ elim (Option-cases claims.name) [
          | inl n ↦ absurd (ground arith)
          | inr (name, n) ↦ elim (Option-cases (get name s.users)) [
            | inl u ↦ absurd (ground arith)
            | inr (user, u) ↦ elim (Option-cases claims.group) [
              | inl g ↦ absurd (ground arith)
              | inr (group, g) ↦ record {
                claims = claims;
                user_name = name;
                group = group;
                user = user;
                decodes = d;
                verifies = ground arith;
                names = n;
                groups = g;
                exists = u;
                unlocked = ground arith;
                permits = ground (arith, member-permission_set permission user.roles []);
              }
            ]
          ]
        ]
      ]

  -- With tokens in use, the check of a permission passes exactly for the requests that carry a
  -- verified token of an unlocked user, one of whose roles has the permission.
  pub permission_check_iff :
      (message : HttpRequest) (permission : String) (s : Security)
      → (permission_check env true message permission s ≡ returns tt)
        ↔ Authorized message permission s
  unfolding permission_check verify_token get_user get_user_permissions member
  permission_check_iff message permission s = (
    permission_check-Authorized message permission s,
    λ a. ground (
      arith,
      a.decodes,
      a.verifies,
      a.names,
      a.groups,
      a.exists,
      a.unlocked,
      a.permits,
      member-permission_set permission a.user.roles [],
    ),
  )

  permission_of-documented :
      (call : Call)
      → ((call ≡ unlock) × (permission_of call ≡ "user-lock"))
        ⊎ (permission_of call ≡ documented_permission call)
  unfolding permission_of documented_permission
  permission_of-documented unlock = inl (refl, refl)
  permission_of-documented change_pwd = inr refl
  permission_of-documented lock = inr refl
  permission_of-documented user_add = inr refl
  permission_of-documented user_del = inr refl
  permission_of-documented role_update = inr refl
  permission_of-documented role_delete = inr refl

  handle-refused :
      (enabled : Bool) (call : Call) (message : HttpRequest) (s : Security) {why : Error}
      → checked env enabled (permission_of call) (expr_of call) message s ≡ throws why
      → handle env enabled call message s ≡ throws why
  unfolding handle permission_of expr_of api_user_change_pwd api_user_lock api_user_unlock
      api_user_add api_user_del api_role_update api_role_delete
  handle-refused enabled change_pwd message s f = rw (f) refl
  handle-refused enabled lock message s f = rw (f) refl
  handle-refused enabled unlock message s f = rw (f) refl
  handle-refused enabled user_add message s f = rw (f) refl
  handle-refused enabled user_del message s f = rw (f) refl
  handle-refused enabled role_update message s f = rw (f) refl
  handle-refused enabled role_delete message s f = rw (f) refl

  pub handle-checked :
      (enabled : Bool) (call : Call) (message : HttpRequest) (s : Security) {s' : Security}
      → handle env enabled call message s ≡ returns s'
      → (names : String × String) × (checked env enabled
            (permission_of call)
            (expr_of call)
            message
            s
          ≡ returns names)
  handle-checked enabled call message s {s'} e =
      elim (Outcome-cases (checked env enabled (permission_of call) (expr_of call) message s)) [
        | inl found ↦ found
        | inr (why, f) ↦ absurd (ground (arith, handle-refused enabled call message s f))
      ]

  checked-permission :
      (permission expr : String) (message : HttpRequest) (s : Security) {names : String × String}
      → checked env true permission expr message s ≡ returns names
      → permission_check env true message permission s ≡ returns tt
  unfolding checked
  checked-permission permission expr message s e =
      elim (Outcome-cases (permission_check env true message permission s)) [
        | inl (v, f) ↦ f
        | inr (why, f) ↦ absurd (ground arith)
      ]

  -- With tokens in use, no handler changes users, roles or passwords unless the request carries a
  -- verified token of an unlocked user, one of whose roles has the permission that the handler asks
  -- for: the one of the constants for the request, but user-lock, and not user-unlock, to unlock a user.
  pub handle-Authorized :
      (call : Call) (message : HttpRequest) (s : Security) {s' : Security}
      → handle env true call message s ≡ returns s'
      → Authorized message (permission_of call) s
        × (((call ≡ unlock) × (permission_of call ≡ "user-lock"))
            ⊎ (permission_of call ≡ documented_permission call))
  handle-Authorized call message s e = (
    (permission_check_iff message (permission_of call) s).0 (
        checked-permission (permission_of call) (expr_of call) message s
          (handle-checked true call message s e).1),
    permission_of-documented call,
  )
