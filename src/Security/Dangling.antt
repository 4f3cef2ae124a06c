-- ===== src/Security/Dangling.antt =====
-- A role that is deleted while a user has it: Roles::delRole of src/daemon/security/Role.cpp leaves the
-- user as it is, and User::FromJson of src/daemon/security/User.cpp asks for every role of a user.
use app_mesh.Prelude.{
  true, false, Option, none, some, List, [], ◌∷◌, String, str_eq, eq_iff, if◌then◌else◌, ◌≡◌, ◌⊎◌,
  refl, arith, ◌∙◌, inl, inr, Bool-cases, Option-cases,
}
use app_mesh.Dict.{Dict, get, put, erase}
use app_mesh.Dict.Laws.{get-put, get-erase}
use app_mesh.Text.{std_string_trim}
use app_mesh.Security.Model.{
  returns, throws, ◌>>=◌, no_such_role, Role, Roles, User, Users, Security, role_from_json,
  get_role, has_role, roles_del, del_role,
}
use app_mesh.Snapshot.{Json, json_field, find_field}
use app_mesh.Security.Saved.{
  JsonSecurity, texts_as_json, roles_as_json, names_of, metadata_field, user_as_json, users_as_json,
  security_as_json, as_string, as_bool, as_array, as_object, filled_field, string_value, bool_value,
  read_role, read_role_map, read_user_roles, user_roles_value, read_filled_user, read_user,
  read_user_map, section, security_from_json,
}
use app_mesh.Security.ReadRoles.{permission_texts-texts_as_json}
use app_mesh.Security.RoundTrip.{trimmed_empty}
use app_mesh.Security.Stored.{save_security, sync_security}

-- The roles are read, or one of them is missing.
read_user_roles-either :
    (roles : Roles) (rest : List Role)
    → ((found : List Role) × (read_user_roles roles (texts_as_json (names_of rest))
          ≡ returns found))
      ⊎ (read_user_roles roles (texts_as_json (names_of rest)) ≡ throws no_such_role)
unfolding read_user_roles texts_as_json names_of as_string get_role
read_user_roles-either roles [] = inl ([], refl)
read_user_roles-either roles (role ∷ rest) = elim (Option-cases (get role.name roles)) [
  | inl e ↦ inr (rw (e) refl)
  | inr (found, e) ↦ elim (read_user_roles-either roles rest) [
    | inl (others, x) ↦
        inl (if has_role found.name others then others else found ∷ others, rw (e, x) refl)
    | inr x ↦ inr (rw (e, x) refl)
  ]
]

read_user_roles-missing :
    (name : String) (roles : Roles) (rest : List Role)
    → get name roles ≡ none
    → has_role name rest ≡ true
    → read_user_roles roles (texts_as_json (names_of rest)) ≡ throws no_such_role
unfolding read_user_roles texts_as_json names_of as_string get_role
read_user_roles-missing name roles [] n h = absurd (ground arith)
read_user_roles-missing name roles (role ∷ rest) n h = elim (Option-cases (get role.name roles)) [
  | inl e ↦ rw (e) refl
  | inr (found, e) ↦ elim (Bool-cases (str_eq role.name name)) [
    | inl same ↦ absurd (ground (arith, eq_iff role.name name))
    | inr other ↦ rw (e, read_user_roles-missing name roles rest n (ground arith)) refl
  ]
]

-- A user as it is read, with the roles that were found.
abbrev read_as : String → User → List Role → User
read_as name user found = record {
  name = name;
  key = std_string_trim user.key;
  group = std_string_trim user.group;
  exec_user = std_string_trim user.exec_user;
  metadata = std_string_trim user.metadata;
  locked = user.locked;
  roles = found;
}

-- A user is read unless a role is missing.
read_filled_user_roles :
    (name : String) (user : User) (roles : Roles)
    → read_filled_user name (user_as_json user) roles ≡ (
        read_user_roles roles (texts_as_json (names_of user.roles)) >>= λ found.
        returns (read_as name user found))
unfolding read_filled_user user_as_json metadata_field string_value bool_value user_roles_value
    filled_field json_field find_field as_string as_bool as_array
read_filled_user_roles name user roles = elim (Bool-cases (str_eq user.metadata "")) [
  | inl e ↦
      let none_given : user.metadata ≡ "" = (eq_iff user.metadata "").0 e in
      rw (none_given, trimmed_empty) refl
  | inr e ↦ rw (e) refl
]

read_filled_user-either :
    (name : String) (user : User) (roles : Roles)
    → ((found : User) × (read_filled_user name (user_as_json user) roles ≡ returns found))
      ⊎ (read_filled_user name (user_as_json user) roles ≡ throws no_such_role)
read_filled_user-either name user roles = elim (read_user_roles-either roles user.roles) [
  | inl (found, e) ↦
      inl (read_as name user found, read_filled_user_roles name user roles ∙ rw (e) refl)
  | inr e ↦ inr (read_filled_user_roles name user roles ∙ rw (e) refl)
]

module _ (missing j : String) (user : User) (roles : Roles) (n : get missing roles ≡ none)
    (h : has_role missing user.roles ≡ true) where
  -- Reading users fails once one of them has a role that is missing.
  read_user_map-missing :
      (users : Users) (acc : Dict (Option User))
      → get j users ≡ some user
      → read_user_map roles (users_as_json users) acc ≡ throws no_such_role
  unfolding get read_user_map users_as_json read_user user_as_json
  read_user_map-missing [] acc e = absurd (ground arith)
  read_user_map-missing ((name, head) ∷ users) acc e = elim (Bool-cases (str_eq name j)) [
    | inl same ↦
        let head_user : head ≡ user = ground arith in
        rw
          (
            read_filled_user_roles name head roles,
            read_user_roles-missing missing roles head.roles n (rw (head_user) h),
          )
          refl
    | inr other ↦ elim (read_filled_user-either name head roles) [
      | inl (found, x) ↦
          rw (x) (read_user_map-missing users (put name (some found) acc) (ground arith))
      | inr x ↦ rw (x) refl
    ]
  ]

-- The roles as they are read, over those of a map.
abbrev reread : Roles → Roles → Roles
reread [] acc = acc
reread ((name, role) ∷ roles) acc =
    reread roles (put name (role_from_json name role.permissions) acc)

read_role_map_any :
    (roles acc : Roles) → read_role_map (roles_as_json roles) acc ≡ returns (reread roles acc)
unfolding read_role_map roles_as_json read_role as_array
read_role_map_any [] acc = refl
read_role_map_any ((name, role) ∷ roles) acc =
    rw (permission_texts-texts_as_json role.permissions)
      (read_role_map_any roles (put name (role_from_json name role.permissions) acc))

get-reread :
    (j : String) (roles acc : Roles) → get j roles ≡ none → get j (reread roles acc) ≡ get j acc
unfolding get
get-reread j [] acc n = refl
get-reread j ((name, role) ∷ roles) acc n = ground (
  arith,
  get-reread j roles (put name (role_from_json name role.permissions) acc),
  get-put name j (role_from_json name role.permissions) acc,
  eq_iff name j,
)

security_from_json-missing :
    (missing j : String) (s : Security) {user : User}
    → get missing s.roles ≡ none
    → get j s.users ≡ some user
    → has_role missing user.roles ≡ true
    → security_from_json (security_as_json s) ≡ throws no_such_role
unfolding security_from_json security_as_json section bool_value filled_field json_field find_field
    as_object as_bool get
security_from_json-missing missing j s {user} n e h =
    rw
      (
        read_role_map_any s.roles [],
        read_user_map-missing missing j user (reread s.roles [])
            (get-reread missing s.roles [] n ∙ refl) h s.users [] e,
      )
      refl

-- If a role is deleted without an exception that some user has: what is kept afterwards cannot be
-- read, since the role is missing, and a host that reads it from Consul keeps the users and roles
-- that it had.
pub del_role-unreadable :
    (name j : String) (s s' : Security) (current : JsonSecurity) (kept : Option Json) {user : User}
    → del_role name s ≡ returns s'
    → get j s.users ≡ some user
    → has_role name user.roles ≡ true
    → (security_from_json (security_as_json s') ≡ throws no_such_role)
      × (sync_security true (save_security true false kept s') current ≡ current)
unfolding del_role roles_del get_role save_security sync_security
del_role-unreadable name j s s' current kept {user} d e h = elim (Option-cases (get name s.roles)) [
  | inl n ↦ absurd (ground arith)
  | inr (role, n) ↦
      let roles : s'.roles ≡ erase name s.roles = ground arith in
      let users : s'.users ≡ s.users = ground arith in
      let gone : get name s'.roles ≡ none =
        ground (arith, get-erase name name s.roles, eq_iff name name) in
      let unreadable = security_from_json-missing name j s' {user = user} gone (ground arith) h in
      (unreadable, rw (sync_security, save_security, unreadable) refl)
]
