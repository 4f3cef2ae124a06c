-- ===== src/Security/Examples.antt =====
-- The theorems on users, roles and requests at two users and a role.
use app_mesh.Prelude.Int.{ℤ, pos}
use app_mesh.Text.{text_length, space_count, kept_length, all_spaces, is_space}
use app_mesh.Text.Trim.{IsTrimmed}
use app_mesh.Text.Search.{◌<>◌}
use app_mesh.Security.Session.{
  api_user_login, login, check_password, login_reply, expire_seconds, create_jwt_token,
}
use app_mesh.Security.Issued.{IsIssued, login-permission_check}
use mathlib.Core.Bool.{false≢true}
use app_mesh.Prelude.{
  ◌≤◌, true, false, not, ◌&&◌, Option, arith, eq_iff, none, Bool-cases, inl, inr, some, [], ◌∷◌,
  String, str_eq, ◌≡◌, ◌⊎◌, ◌↔◌, refl, if◌then◌else◌,
}
use app_mesh.Dict.{get, has, put, erase, member, add}
use app_mesh.Text.{std_string_trim, start_with}
use app_mesh.Security.Model.{
  returns, Role, User, UserJson, Security, get_role, role_permissions, role_from_json, roles_add,
  roles_del, has_permission, get_user, read_roles, user_from_json, update_user, set_locked,
  any_role_has, permission_set, stored_key, update_key, add_user, change_user_passwd,
  verify_user_key, del_user, lock_user, add_role, del_role, get_user_permissions,
}
use app_mesh.Security.Owner.{
  check_owner_permission, check_owner_permission_lem, owner_bypass, level_allows,
}
use app_mesh.Security.Access.{
  Outside, HttpRequest, get_jwt_token, verify_token, get_jwt_user_name, permission_check,
}
use app_mesh.Security.Api.{
  regex_search, checked, api_user_change_pwd, api_user_lock, api_user_unlock, api_user_add,
  api_user_del, api_role_update, api_role_delete, change_pwd, lock, unlock, permission_of,
  documented_permission, expr_of, handle,
}
use app_mesh.Security.Guards.{Authorized, permission_check_iff, handle-Authorized}
use app_mesh.Security.Effects.{handle-others, change_pwd-own}

abbrev pub manager : Role
manager = record { name = "manager"; permissions = "passwd-change" ∷ "user-lock" ∷ [] }

abbrev pub alice : User
alice = record {
  name = "alice";
  key = "#secret";
  group = "staff";
  exec_user = "";
  metadata = "";
  locked = false;
  roles = manager ∷ [];
}

abbrev pub bob : User
bob = record {
  name = "bob";
  key = "#bob";
  group = "staff";
  exec_user = "";
  metadata = "";
  locked = false;
  roles = [];
}

abbrev pub site : Security
site = record {
  encrypt_key = true;
  roles = ("manager", manager) ∷ [];
  users = ("alice", alice) ∷ ("bob", bob) ∷ [];
}

abbrev sharp : String → String
sharp s = if str_eq s "abc" then "#abc" else "#other"

-- A token is the text "a"; the search of a path gives its last part.
abbrev env : Outside
env = record {
  hash = sharp;
  decode64 = λ s. s;
  decode = λ s.
      if str_eq s "a" then some (record { name = some "alice"; group = some "staff" }) else none;
  verify = λ s. str_eq s "a";
  search =
      λ expr path. if str_eq path "/appmesh/user/alice/passwd" then some "alice" else some "bob";
}

abbrev change_request : HttpRequest
change_request = record {
  path = "/appmesh/user/alice/passwd";
  headers = ("Authorization", "Bearer a") ∷ ("New-Password", "abc") ∷ [];
  user_json = returns none;
  role_json = returns [];
}

abbrev lock_request : HttpRequest
lock_request = record change_request { path = "/appmesh/user/bob/lock" }

server : Unit {0}
unfolding get has put erase member add std_string_trim start_with get_role role_permissions
    role_from_json roles_add roles_del has_permission get_user read_roles user_from_json update_user
    set_locked any_role_has permission_set stored_key update_key add_user change_user_passwd
    verify_user_key del_user lock_user add_role del_role get_user_permissions get_jwt_token
    verify_token get_jwt_user_name permission_check regex_search checked api_user_change_pwd
    api_user_lock api_user_unlock api_user_add api_user_del api_role_update api_role_delete
    permission_of expr_of handle check_owner_permission owner_bypass level_allows
server = tt

abbrev site_changed : Security
site_changed = record site { users = ("alice", record alice { key = "#abc" }) ∷ ("bob", bob) ∷ [] }

abbrev site_locked : Security
site_locked = record site { users = ("alice", alice) ∷ ("bob", record bob { locked = true }) ∷ [] }

change_request-handled : handle env true change_pwd change_request site ≡ returns site_changed
unfolding server
change_request-handled = refl

lock_request-handled : handle env true lock lock_request site ≡ returns site_locked
unfolding server
lock_request-handled = refl

handle-Authorized_example :
    Authorized env lock_request (permission_of lock) site
    × (((lock ≡ unlock) × (permission_of lock ≡ "user-lock"))
        ⊎ (permission_of lock ≡ documented_permission lock))
handle-Authorized_example = handle-Authorized env lock lock_request site lock_request-handled

permission_check_iff_example :
    (permission_check env true lock_request "user-lock" site ≡ returns tt)
    ↔ Authorized env lock_request "user-lock" site
permission_check_iff_example = permission_check_iff env lock_request "user-lock" site

handle-others_example : get "alice" site_locked.users ≡ get "alice" site.users
unfolding server
handle-others_example =
    handle-others env true lock lock_request "alice" site lock_request-handled refl refl

change_pwd-own_example :
    (name : String) × (header : String) × (user : User) × (get_jwt_user_name env change_request
      ≡ returns name)
    × (regex_search env true change_request.path (expr_of change_pwd) ≡ returns name)
    × (get "New-Password" change_request.headers ≡ some header)
    × (3 ≤ text_length (std_string_trim header))
    × (get name site.users ≡ some user)
    × (verify_user_key sharp name "abc" site_changed
        ≡ returns (
          str_eq (stored_key sharp site (std_string_trim header)) (stored_key sharp site "abc")
              && not user.locked,
          user.group,
        ))
change_pwd-own_example = change_pwd-own env true change_request "abc" site change_request-handled

abbrev bob_json : UserJson
bob_json = record {
  key = some "abc";
  group = none;
  exec_user = none;
  metadata = none;
  locked = none;
  roles = none;
}

check_owner_permission_lem_example :
    check_owner_permission "bob" (some alice) (pos 32) true site ≡ returns false
unfolding server
check_owner_permission_lem_example =
    check_owner_permission_lem "bob" alice bob (pos 32) true site refl refl

-- A token "a" for alice, and "x" for anyone else.
abbrev create : String → String → ℤ → String
create name group seconds = if str_eq name "alice" && str_eq group "staff" then "a" else "x"

abbrev stoi : String → Option ℤ
stoi s = none

abbrev login_request : HttpRequest
login_request = record change_request { headers = ("Username", "alice") ∷ ("Password", "abc") ∷ [] }

IsTrimmed-a : IsTrimmed "a"
unfolding text_length space_count kept_length all_spaces is_space
IsTrimmed-a = (omega arith, refl, refl)

issued : IsIssued env create stoi "a" (pos 604800)
issued name group e = elim (Bool-cases (str_eq name "alice" && str_eq group "staff")) [
  | inl same ↦ (IsTrimmed-a, ground (arith, eq_iff name "alice", eq_iff group "staff"))
  | inr other ↦
      let wrong : "a" ≡ "x" = ground arith in absurd (false≢true ((eq_iff "a" "x").1 wrong))
]

logging : Unit {0}
unfolding server api_user_login login check_password login_reply expire_seconds create_jwt_token
    verify_user_key stored_key ◌<>◌
logging = tt

login-permission_check_example :
    (username : String) × (password : String) × (user : User) × (get "Username"
        login_request.headers
      ≡ some username)
    × (get "Password" login_request.headers ≡ some password)
    × (get username site_changed.users ≡ some user)
    × (user.locked ≡ false)
    × (user.key ≡ stored_key sharp site_changed password)
    × ((permission_check env true lock_request "user-lock" site_changed ≡ returns tt)
        ↔ (any_role_has user.roles "user-lock" ≡ true))
unfolding server
login-permission_check_example =
    login-permission_check env create stoi login_request lock_request site_changed "user-lock" "a"
      (pos 604800) issued (unfold logging in refl) (unfold logging in refl) refl
