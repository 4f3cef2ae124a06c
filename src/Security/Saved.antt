-- ===== src/Security/Saved.antt =====
-- The JSON of users and roles: AsJson and FromJson of src/daemon/security/Role.cpp and User.cpp, the
-- files of Security.cpp, and Consul's copy (saveSecurity and syncSecurity of
-- src/daemon/consul/ConsulConnection.cpp), where the requests succeed. `bad_json` is the exception of
-- web::json for a value of another type. A user that is a JSON null is read as a null pointer, `none`.
use app_mesh.Prelude.{Bool, false, Option, none, some, List, [], ◌∷◌, String, str_eq, if◌then◌else◌}
use app_mesh.Dict.{Dict, put}
use app_mesh.Text.{std_string_trim}
use app_mesh.Security.Model.{
  Outcome, returns, throws, ◌>>=◌, or_throw, bad_json, user_without_key, Role, Roles, User, Users,
  Security, role_from_json, get_role, has_role,
}
use app_mesh.Snapshot.{
  Json, null, array, boolean, string, object, Items, no_item, item, Fields, no_field, field,
  json_field,
}

-- JsonSecurity as FromJson makes it.
pub record JsonSecurity : Type 0 where
  pub encrypt_key : Bool
  pub roles : Roles
  pub users : Dict (Option User)

-- Role::AsJson
unfoldable pub texts_as_json : List String → Items
texts_as_json [] = no_item
texts_as_json (text ∷ texts) = item (string text) (texts_as_json texts)

-- Roles::AsJson
unfoldable pub roles_as_json : Roles → Fields
unfolding texts_as_json
roles_as_json [] = no_field
roles_as_json ((name, role) ∷ roles) =
    field name (array (texts_as_json role.permissions)) (roles_as_json roles)

unfoldable pub names_of : List Role → List String
names_of [] = []
names_of (role ∷ roles) = role.name ∷ names_of roles

unfoldable pub metadata_field : String → Fields → Fields
metadata_field metadata fields =
    if str_eq metadata "" then fields else field "metadata" (string metadata) fields

-- User::AsJson
unfoldable pub user_as_json : User → Json
unfolding texts_as_json names_of metadata_field
user_as_json user = object (
    field "key" (string user.key) (
      field "group" (string user.group) (
        field "exec_user" (string user.exec_user) (
          field "locked" (boolean user.locked) (
            metadata_field user.metadata
              (field "roles" (array (texts_as_json (names_of user.roles))) no_field))))))

-- Users::AsJson
unfoldable pub users_as_json : Users → Fields
unfolding user_as_json
users_as_json [] = no_field
users_as_json ((name, user) ∷ users) = field name (user_as_json user) (users_as_json users)

-- JsonSecurity::AsJson
unfoldable pub security_as_json : Security → Json
unfolding roles_as_json users_as_json
security_as_json s = object (
    field "EncryptKey" (boolean s.encrypt_key) (
      field "Users" (object (users_as_json s.users))
        (field "Roles" (object (roles_as_json s.roles)) no_field)))

unfoldable pub as_string : Json → Outcome String
as_string (string text) = returns text
as_string json = throws bad_json

unfoldable pub as_bool : Json → Outcome Bool
as_bool (boolean b) = returns b
as_bool json = throws bad_json

unfoldable pub as_array : Json → Outcome Items
as_array (array items) = returns items
as_array json = throws bad_json

unfoldable pub as_object : Json → Outcome Fields
as_object (object fields) = returns fields
as_object json = throws bad_json

abbrev pub not_null : Json → Option Json
not_null null = none
not_null json = some json

-- HAS_JSON_FIELD, with the value of the field.
unfoldable pub filled_field : String → Json → Option Json
unfolding json_field
filled_field key json = elim (json_field key json) [ none ↦ none | some value ↦ not_null value ]

-- GET_JSON_STR_VALUE
unfoldable pub string_value : String → Json → Outcome String
unfolding filled_field as_string std_string_trim
string_value key json = elim (filled_field key json) [
  | none ↦ returns ""
  | some value ↦ as_string value >>= λ text. returns (std_string_trim text)
]

-- GET_JSON_BOOL_VALUE and SET_JSON_BOOL_VALUE: the value that a missing field has.
unfoldable pub bool_value : String → Bool → Json → Outcome Bool
unfolding filled_field as_bool
bool_value key default json = elim (filled_field key json) [
  | none ↦ returns default
  | some value ↦ as_bool value
]

-- The texts that the loop of Role::FromJson goes through.
unfoldable pub permission_texts : Items → Outcome (List String)
unfolding as_string
permission_texts no_item = returns []
permission_texts (item json items) = do
  perm ← as_string json
  perms ← permission_texts items
  returns (perm ∷ perms)

-- Role::FromJson
unfoldable pub read_role : String → Json → Outcome Role
unfolding as_array permission_texts role_from_json
read_role role_name json = do
  permissions ← as_array json
  perms ← permission_texts permissions
  returns (role_from_json role_name perms)

-- The loop of Roles::FromJson.
unfoldable pub read_role_map : Fields → Roles → Outcome Roles
unfolding read_role
read_role_map no_field roles = returns roles
read_role_map (field role_name json fields) roles = do
  role ← read_role role_name json
  read_role_map fields (put role_name role roles)

-- The roles of a user, from the array of their names.
unfoldable pub read_user_roles : Roles → Items → Outcome (List Role)
unfolding as_string get_role
read_user_roles roles no_item = returns []
read_user_roles roles (item json items) = do
  role_name ← as_string json
  role ← get_role role_name roles
  rest ← read_user_roles roles items
  returns (if has_role role.name rest then rest else role ∷ rest)

unfoldable pub user_roles_value : Roles → Json → Outcome (List Role)
unfolding filled_field as_array read_user_roles
user_roles_value roles json = elim (filled_field "roles" json) [
  | none ↦ returns []
  | some value ↦ as_array value >>= λ items. read_user_roles roles items
]

-- User::FromJson of a value that is not null.
unfoldable pub read_filled_user : String → Json → Roles → Outcome User
unfolding filled_field string_value bool_value user_roles_value
read_filled_user user_name json roles = do
  present ← or_throw (filled_field "key" json) user_without_key
  key ← string_value "key" json
  group ← string_value "group" json
  exec_user ← string_value "exec_user" json
  metadata ← string_value "metadata" json
  locked ← bool_value "locked" false json
  user_roles ← user_roles_value roles json
  returns (record {
    name = user_name;
    key = key;
    group = group;
    exec_user = exec_user;
    metadata = metadata;
    locked = locked;
    roles = user_roles;
  })

-- User::FromJson
unfoldable pub read_user : String → Json → Roles → Outcome (Option User)
unfolding read_filled_user
read_user user_name null roles = returns none
read_user user_name json roles =
    read_filled_user user_name json roles >>= λ user. returns (some user)

-- The loop of Users::FromJson.
unfoldable pub read_user_map : Roles → Fields → Dict (Option User) → Outcome (Dict (Option User))
unfolding read_user
read_user_map roles no_field users = returns users
read_user_map roles (field name json fields) users = do
  user ← read_user name json roles
  read_user_map roles fields (put name user users)

-- The value of a section, or an object without fields if it is missing.
unfoldable pub section : String → Json → Outcome Fields
unfolding filled_field as_object
section key json = elim (filled_field key json) [
  | none ↦ returns no_field
  | some value ↦ as_object value
]

-- JsonSecurity::FromJson
unfoldable pub security_from_json : Json → Outcome JsonSecurity
unfolding section read_role_map bool_value read_user_map
security_from_json json = do
  role_fields ← section "Roles" json
  roles ← read_role_map role_fields []
  encrypt_key ← bool_value "EncryptKey" false json
  user_fields ← section "Users" json
  users ← read_user_map roles user_fields []
  returns (record { encrypt_key = encrypt_key; roles = roles; users = users })
