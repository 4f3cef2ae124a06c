-- ===== src/Security/Model.antt =====
-- src/daemon/security/Role.cpp, User.cpp and Security.cpp. A role object is never changed once it was
-- read, so a user holds roles themselves; a user object lives in the map of users. The JSON that a
-- user is read from is given by the fields that the code reads, each of its type or missing, and a
-- JSON null is `none`. `hash` is `Utility::hash`, the standard library's hash of a text.
use app_mesh.Prelude.{
  inl, inr, refl, ◌≡◌, ◌⊎◌, Bool, true, false, not, ◌&&◌, Option, none, some, List, [], ◌∷◌, String,
  str_eq, if◌then◌else◌,
}
use app_mesh.Dict.{Dict, get, put, erase, member, add}

pub data Error : Type 0 where
  no_such_role no_such_user user_without_key bad_user_section null_pointer : Error
  no_user_in_token bad_token user_locked no_permission : Error
  bad_path missing_header not_own_password short_password admin_lock no_such_app cloud_app rest_app
        no_user_name bad_number bad_json no_file division_by_zero bad_action bad_code no_command
        has_command :
      Error

-- What a call gives: its value, or the exception that it throws.
pub data Outcome {ℓ} (V : Type ℓ) : Type ℓ where
  returns : V → Outcome V
  throws : Error → Outcome V

infixl 5 ◌>>=◌ ◌>>◌
abbrev pub ◌>>=◌ {ℓ κ} : {V : Type ℓ} {W : Type κ} → Outcome V → (V → Outcome W) → Outcome W
returns v >>= next = next v
throws why >>= next = throws why

abbrev pub ◌>>◌ {ℓ} : {W : Type ℓ} → Outcome (Unit {0}) → Outcome W → Outcome W
check >> next = check >>= λ v. next

-- `if (bad) throw`
abbrev pub throw_if : Bool → Error → Outcome (Unit {0})
throw_if bad why = if bad then throws why else returns tt

pub Outcome-cases {ℓ} :
    {V : Type ℓ} (m : Outcome V) → ((v : V) × (m ≡ returns v)) ⊎ ((why : Error) × (m ≡ throws why))
Outcome-cases (returns v) = inl (v, refl)
Outcome-cases (throws why) = inr (why, refl)

abbrev pub or_throw {ℓ} : {V : Type ℓ} → Option V → Error → Outcome V
or_throw none why = throws why
or_throw (some v) why = returns v

pub record Role : Type 0 where
  pub name : String
  pub permissions : List String

abbrev pub Roles : Type 0
Roles = Dict Role

pub record User : Type 0 where
  pub name : String
  pub key : String
  pub group : String
  pub exec_user : String
  pub metadata : String
  pub locked : Bool
  pub roles : List Role

abbrev pub Users : Type 0
Users = Dict User

pub record UserJson : Type 0 where
  pub key : Option String
  pub group : Option String
  pub exec_user : Option String
  pub metadata : Option String
  pub locked : Option Bool
  pub roles : Option (List String)

-- JsonSecurity
pub record Security : Type 0 where
  pub encrypt_key : Bool
  pub roles : Roles
  pub users : Users

unfoldable pub get_role : String → Roles → Outcome Role
get_role role_name roles = or_throw (get role_name roles) no_such_role

-- Role::FromJson, from the texts of the array.
unfoldable pub role_permissions : List String → List String
role_permissions [] = []
role_permissions (perm ∷ perms) =
    let rest = role_permissions perms in if str_eq perm "" then rest else add perm rest

unfoldable pub role_from_json : String → List String → Role
unfolding role_permissions
role_from_json role_name perms = record { name = role_name; permissions = role_permissions perms }

abbrev pub is_nil {ℓ} : {A : Type ℓ} → List A → Bool
is_nil [] = true
is_nil (x ∷ xs) = false

-- Roles::addRole: a role without permissions is removed.
unfoldable pub roles_add : List String → String → Roles → Roles
unfolding role_from_json
roles_add perms role_name roles =
    let role = role_from_json role_name perms in
    let added = put role_name role roles in
    if is_nil role.permissions then erase role_name added else added

unfoldable pub roles_del : String → Roles → Outcome Roles
unfolding get_role
roles_del role_name roles = do _ ← get_role role_name roles; returns (erase role_name roles)

unfoldable pub has_permission : Role → String → Bool
has_permission role permission = member permission role.permissions

unfoldable pub get_user : String → Users → Outcome User
get_user name users = or_throw (get name users) no_such_user

abbrev pub has_role : String → List Role → Bool
has_role name [] = false
has_role name (role ∷ roles) = if str_eq role.name name then true else has_role name roles

-- The set of role objects of a user: one name stands for one object while a user is read.
unfoldable pub read_roles : Roles → List String → Outcome (List Role)
read_roles roles [] = returns []
read_roles roles (role_name ∷ names) = do
  role ← get_role role_name roles
  rest ← read_roles roles names
  returns (if has_role role.name rest then rest else role ∷ rest)

abbrev pub or_empty : Option String → String
or_empty none = ""
or_empty (some s) = s

abbrev pub or_false : Option Bool → Bool
or_false none = false
or_false (some b) = b

abbrev pub role_names : Option (List String) → List String
role_names none = []
role_names (some names) = names

-- User::FromJson; `none` is the null pointer that it gives for a JSON null.
unfoldable pub user_from_json : String → Option UserJson → Roles → Outcome (Option User)
user_from_json user_name none roles = returns none
user_from_json user_name (some obj) roles = do
  key ← or_throw obj.key user_without_key
  user_roles ← read_roles roles (role_names obj.roles)
  returns (
      some (record {
        name = user_name;
        key = key;
        group = or_empty obj.group;
        exec_user = or_empty obj.exec_user;
        metadata = or_empty obj.metadata;
        locked = or_false obj.locked;
        roles = user_roles;
      }))

-- User::updateUser leaves the key alone.
unfoldable pub update_user : User → User → User
update_user this user = record this {
  roles = user.roles;
  exec_user = user.exec_user;
  group = user.group;
  metadata = user.metadata;
  locked = user.locked;
}

unfoldable pub set_locked : Bool → User → User
set_locked b user = record user { locked = b }

-- User::hasPermission
unfoldable pub any_role_has : List Role → String → Bool
unfolding has_permission
any_role_has [] permission = false
any_role_has (role ∷ roles) permission =
    if has_permission role permission then true else any_role_has roles permission

abbrev pub add_all : List String → List String → List String
add_all [] set = set
add_all (x ∷ xs) set = add_all xs (add x set)

-- The loops of Security::getUserPermissions.
unfoldable pub permission_set : List Role → List String → List String
permission_set [] set = set
permission_set (role ∷ roles) set = permission_set roles (add_all role.permissions set)

unfoldable pub all_permission_set : Roles → List String → List String
all_permission_set [] set = set
all_permission_set ((name, role) ∷ roles) set =
    all_permission_set roles (add_all role.permissions set)

-- Users::getGroups
unfoldable pub group_set : Users → List String → List String
group_set [] set = set
group_set ((name, user) ∷ users) set =
    group_set users (if str_eq user.group "" then set else add user.group set)

module _ (hash : String → String) where
  -- The key that is kept for a password.
  unfoldable pub stored_key : Security → String → String
  stored_key s passwd = if s.encrypt_key then hash passwd else passwd

  unfoldable pub update_key : Security → String → User → User
  unfolding stored_key
  update_key s passwd user = record user { key = stored_key s passwd }

  -- Users::addUser through Security::addUser, with the user that it returns. An existing user is
  -- updated, and the key of the user that was just read is set after that.
  unfoldable pub add_user : String → Option UserJson → Security → Outcome (Security × User)
  unfolding update_key update_user user_from_json
  add_user user_name user_json s = do
    read ← user_from_json user_name user_json s.roles
    user ← or_throw read null_pointer
    let keyed = update_key s user.key user
    returns (elim (get user_name s.users) [
      | none ↦ (record s { users = put user_name keyed s.users }, keyed)
      | some old ↦ (record s { users = put user_name (update_user old user) s.users }, keyed)
    ])

  unfoldable pub change_user_passwd : String → String → Security → Outcome Security
  unfolding get_user update_key
  change_user_passwd user_name new_pwd s = do
    user ← get_user user_name s.users
    returns (record s { users = put user_name (update_key s new_pwd user) s.users })

  -- Security::verifyUserKey, with the group that it hands out.
  unfoldable pub verify_user_key : String → String → Security → Outcome (Bool × String)
  unfolding get_user stored_key
  verify_user_key user_name user_key s = do
    user ← get_user user_name s.users
    returns (str_eq user.key (stored_key s user_key) && not user.locked, user.group)

unfoldable pub del_user : String → Security → Outcome Security
unfolding get_user
del_user name s = do _ ← get_user name s.users; returns (record s { users = erase name s.users })

-- User::lock and User::unlock of the user of that name.
unfoldable pub lock_user : Bool → String → Security → Outcome Security
unfolding get_user set_locked
lock_user b name s = do
  user ← get_user name s.users
  returns (record s { users = put name (set_locked b user) s.users })

unfoldable pub add_role : List String → String → Security → Security
unfolding roles_add
add_role perms name s = record s { roles = roles_add perms name s.roles }

unfoldable pub del_role : String → Security → Outcome Security
unfolding roles_del
del_role name s = do roles ← roles_del name s.roles; returns (record s { roles = roles })

unfoldable pub get_user_permissions : String → Security → Outcome (List String)
unfolding get_user permission_set
get_user_permissions user_name s = do
  user ← get_user user_name s.users
  returns (permission_set user.roles [])

unfoldable pub get_all_permissions : Security → List String
unfolding all_permission_set
get_all_permissions s = all_permission_set s.roles []

unfoldable pub get_all_user_groups : Security → List String
unfolding group_set
get_all_user_groups s = group_set s.users []
