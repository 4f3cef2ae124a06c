-- ===== src/Security/Login.antt =====
-- Logging in, src/daemon/security/Security.cpp: what changing a password or a user does to it.
use app_mesh.Prelude.{
  ◌∙◌, inl, inr, not, ◌&&◌, none, some, String, str_eq, ◌≡◌, refl, arith, eq_iff, Option-cases,
}
use app_mesh.Dict.{get}
use app_mesh.Dict.Laws.{get-put}
use app_mesh.Security.Model.{
  Outcome-cases, or_false, or_empty, read_roles, role_names, returns, Security, User, UserJson,
  get_user, update_key, stored_key, change_user_passwd, verify_user_key, add_user, user_from_json,
  update_user,
}

module _ (hash : String → String) where
  -- The key that a user has once it was added with a key.
  abbrev pub key_after : Security → String → String → String
  key_after s name key = elim (get name s.users) [
    | none ↦ stored_key hash s key
    | some old ↦ old.key
  ]

  stored_key-eq :
      (s s' : Security) (passwd : String)
      → s'.encrypt_key ≡ s.encrypt_key
      → stored_key hash s' passwd ≡ stored_key hash s passwd
  unfolding stored_key
  stored_key-eq s s' passwd e = ground arith

  pub verify_get :
      (s : Security) (name key : String) (user : User)
      → get name s.users ≡ some user
      → verify_user_key hash name key s
        ≡ returns (str_eq user.key (stored_key hash s key) && not user.locked, user.group)
  unfolding verify_user_key get_user
  verify_get s name key user e = rw (e) refl

  -- After a change of the password, a login of that user succeeds exactly when the password gives the
  -- same stored key as the new one and the user is not locked.
  pub verify-change_user_passwd :
      (s : Security) (name new tried : String) {s' : Security}
      → change_user_passwd hash name new s ≡ returns s'
      → (user : User) × (get name s.users ≡ some user)
        × (verify_user_key hash name tried s'
            ≡ returns (
              str_eq (stored_key hash s new) (stored_key hash s tried) && not user.locked,
              user.group,
            ))
  unfolding change_user_passwd get_user update_key
  verify-change_user_passwd s name new tried {s'} c = elim (Option-cases (get name s.users)) [
    | inl n ↦ absurd (ground arith)
    | inr (user, e) ↦ (
      user,
      e,
      ground (
        arith,
        verify_get s' name tried (update_key hash s new user),
        get-put name name (update_key hash s new user) s.users,
        eq_iff name name,
      ),
    )
  ]

  -- What is left of a successful `add_user`: the roles that were read, and the user in the map.
  get-add_user :
      (s : Security) (name key : String) (json : UserJson) {s' : Security} {added : User}
      → json.key ≡ some key
      → add_user hash name (some json) s ≡ returns (s', added)
      → (user : User) × (get name s'.users ≡ some user)
        × (user.key ≡ key_after s name key)
        × (user.locked ≡ or_false json.locked)
        × (user.group ≡ or_empty json.group)
        × (s'.encrypt_key ≡ s.encrypt_key)
  unfolding add_user update_key user_from_json update_user
  get-add_user s name key json {s'} {added} k c =
      elim (Outcome-cases (read_roles s.roles (role_names json.roles))) [
        | inr (why, e) ↦ absurd (ground arith)
        | inl (roles, e) ↦ elim (Option-cases (get name s.users)) [
          | inl n ↦ (
            added,
            ground (arith, get-put name name added s.users, eq_iff name name),
            ground arith,
            ground arith,
            ground arith,
            ground arith,
          )
          | inr (old, n) ↦ (
            record old {
              roles = roles;
              exec_user = or_empty json.exec_user;
              group = or_empty json.group;
              metadata = or_empty json.metadata;
              locked = or_false json.locked;
            },
            ground (
              arith,
              get-put name name
                  (record old {
                    roles = roles;
                    exec_user = or_empty json.exec_user;
                    group = or_empty json.group;
                    metadata = or_empty json.metadata;
                    locked = or_false json.locked;
                  })
                  s.users,
              eq_iff name name,
            ),
            ground arith,
            ground arith,
            ground arith,
            ground arith,
          )
        ]
      ]

  -- After a user was added, a login succeeds exactly when the password gives the stored key and the
  -- new data does not lock the user; the stored key is that of the given key for a new user, and an
  -- existing user's own one stays, whatever key is given.
  pub verify-add_user :
      (s : Security) (name tried key : String) (json : UserJson) {s' : Security} {added : User}
      → json.key ≡ some key
      → add_user hash name (some json) s ≡ returns (s', added)
      → verify_user_key hash name tried s'
        ≡ returns (
          str_eq (key_after s name key) (stored_key hash s tried) && not (or_false json.locked),
          or_empty json.group,
        )
  verify-add_user s name tried key json {s'} {added} k c =
      let found = get-add_user s name key json {s' = s'} {added = added} k c in
      verify_get s' name tried found.0 found.1
      ∙ rw (found.2, found.3, found.4, stored_key-eq s s' tried found.5) refl
