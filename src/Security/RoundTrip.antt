-- ===== src/Security/RoundTrip.antt =====
-- Users and roles of src/daemon/security/Role.cpp and User.cpp after they were written as JSON and read
-- back.
use app_mesh.Prelude.{
  false, Option, none, some, List, [], ◌∷◌, String, str_eq, eq_iff, ◌≡◌, refl, arith, sym, ◌∙◌, inl,
  inr, Bool-cases, ap, subst,
}
use app_mesh.Dict.{Dict, get, put, keys, Distinct}
use app_mesh.Dict.Laws.{get-tail}
use app_mesh.Text.{std_string_trim}
use app_mesh.Security.Model.{returns, Role, Roles, User, Users, Security, get_role, has_role}
use app_mesh.Snapshot.{json_field, find_field}
use app_mesh.Security.Saved.{
  JsonSecurity, texts_as_json, names_of, metadata_field, user_as_json, users_as_json,
  security_as_json, as_string, as_bool, as_array, as_object, filled_field, string_value, bool_value,
  read_user_roles, user_roles_value, read_filled_user, read_user, read_user_map, section,
  security_from_json,
}
use app_mesh.Security.ReadRoles.{AreRoles, put_all, get-put_all_new, read_role_map_lem}

-- The roles of a user are those that the map of roles has, none of them twice.
abbrev pub HaveRoles : Roles → List Role → Type 0
HaveRoles roles [] = Unit
HaveRoles roles (role ∷ rest) =
    (get role.name roles ≡ some role) × (has_role role.name rest ≡ false) × HaveRoles roles rest

read_user_roles_lem :
    (roles : Roles) (rest : List Role)
    → HaveRoles roles rest
    → read_user_roles roles (texts_as_json (names_of rest)) ≡ returns rest
unfolding read_user_roles texts_as_json names_of as_string get_role
read_user_roles_lem roles [] h = refl
read_user_roles_lem roles (role ∷ rest) h = rw (h.0, read_user_roles_lem roles rest h.2, h.1) refl

abbrev pub IsUnpadded : String → Type 0
IsUnpadded text = std_string_trim text ≡ text

-- A user is filed under its name, its texts have no blanks around them, and its roles are in the map.
abbrev pub IsUser : Roles → String → User → Type 0
IsUser roles name user =
    (user.name ≡ name)
    × (IsUnpadded user.key
        × IsUnpadded user.group
        × IsUnpadded user.exec_user
        × IsUnpadded user.metadata)
    × HaveRoles roles user.roles

pub trimmed_empty : std_string_trim "" ≡ ""
unfolding std_string_trim
trimmed_empty = refl

read_filled_user_lem :
    (name : String) (user : User) (roles : Roles)
    → IsUser roles name user
    → read_filled_user name (user_as_json user) roles ≡ returns user
unfolding read_filled_user user_as_json metadata_field string_value bool_value user_roles_value
    filled_field json_field find_field as_string as_bool as_array
read_filled_user_lem name user roles (n, (k, g, x, m), h) =
    elim (Bool-cases (str_eq user.metadata "")) [
      | inl e ↦
          let none_given : user.metadata ≡ "" = (eq_iff user.metadata "").0 e in
          rw (e, k, g, x, read_user_roles_lem roles user.roles h, ← n, ← none_given) refl
      | inr e ↦ rw (e, k, g, x, m, read_user_roles_lem roles user.roles h, ← n) refl
    ]

HaveRoles-same :
    (old new : Roles) (rest : List Role)
    → ((n : String) → get n new ≡ get n old)
    → HaveRoles old rest
    → HaveRoles new rest
HaveRoles-same old new [] same h = tt
HaveRoles-same old new (role ∷ rest) same h =
    (same role.name ∙ h.0, h.1, HaveRoles-same old new rest same h.2)

abbrev pub AreUsers : Roles → Users → Type 0
AreUsers roles users = (n : String) (user : User) → get n users ≡ some user → IsUser roles n user

abbrev not_null_users : Users → Dict (Option User)
not_null_users [] = []
not_null_users ((name, user) ∷ users) = (name, some user) ∷ not_null_users users

keys-not_null_users : (users : Users) → keys (not_null_users users) ≡ keys users
keys-not_null_users [] = refl
keys-not_null_users ((name, user) ∷ users) = ap (◌∷◌ name) (keys-not_null_users users)

-- What stands under a name is a user, and not a null pointer.
abbrev pub some_user : Option User → Option (Option User)
some_user none = none
some_user (some user) = some (some user)

get-not_null_users :
    (j : String) (users : Users) → get j (not_null_users users) ≡ some_user (get j users)
unfolding get
get-not_null_users j [] = refl
get-not_null_users j ((name, user) ∷ users) = ground (arith, get-not_null_users j users)

read_user_map_lem :
    (roles : Roles) (users : Users) (acc : Dict (Option User))
    → Distinct (keys users)
    → AreUsers roles users
    → read_user_map roles (users_as_json users) acc ≡ returns (put_all (not_null_users users) acc)
unfolding read_user_map users_as_json read_user user_as_json get
read_user_map_lem roles [] acc d a = refl
read_user_map_lem roles ((name, user) ∷ users) acc d a =
    rw (read_filled_user_lem name user roles (a name user (ground (arith, eq_iff name name)))) (
      read_user_map_lem roles users (put name (some user) acc) d.1
        (λ n r e. a n r (get-tail name user n users d e)))

-- The maps have distinct keys, a role is filed under its name and has a set of texts that are not
-- empty, and a user is filed under its name, has trimmed texts, and roles that are in the map.
abbrev pub IsSaved : Security → Type 0
IsSaved s =
    Distinct (keys s.roles) × AreRoles s.roles × Distinct (keys s.users) × AreUsers s.roles s.users

-- The same roles and users, with none of them null.
abbrev pub IsRead : Security → JsonSecurity → Type 0
IsRead s r =
    (r.encrypt_key ≡ s.encrypt_key)
    × ((n : String) → get n r.roles ≡ get n s.roles)
    × ((n : String) → get n r.users ≡ some_user (get n s.users))

-- Users and roles whose maps have distinct keys, with each role under its name and with an ascending
-- list of permissions that are not empty, and each user under its name, with trimmed texts and
-- distinct roles that the map of roles has: their JSON is read without an exception, and gives the
-- same flag, under each name the same role, and under each name the same user.
pub security_from_json-security_as_json :
    (s : Security)
    → IsSaved s
    → (r : JsonSecurity) × (security_from_json (security_as_json s) ≡ returns r) × IsRead s r
unfolding security_from_json security_as_json section bool_value filled_field json_field find_field
    as_object as_bool
security_from_json-security_as_json s (dr, ar, du, au) =
    let roles = put_all s.roles [] in
    let same : (n : String) → get n roles ≡ get n s.roles = λ n. get-put_all_new n s.roles dr in
    let users = put_all (not_null_users s.users) [] in
    let read = read_user_map_lem roles s.users [] du (λ n user e.
      let (x, y, h) = au n user e in (x, y, HaveRoles-same s.roles roles user.roles same h)) in
    (
      record { encrypt_key = s.encrypt_key; roles = roles; users = users },
      rw (read_role_map_lem s.roles [] dr ar, read) refl,
      (
        refl,
        same,
        λ n.
            get-put_all_new n (not_null_users s.users)
              (subst Distinct (sym (keys-not_null_users s.users)) du)
            ∙ get-not_null_users n s.users,
      ),
    )
