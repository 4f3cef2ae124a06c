-- ===== src/Security/Api.antt =====
-- The handlers of src/daemon/rest/RestHandler.cpp that change users, roles and passwords. A handler
-- gives the security data after it, or the exception that becomes the error reply. Saving to disk
-- and to Consul, which follows every change, and the reply are left out.
use app_mesh.Prelude.{Bool, true, false, not, String, List, str_eq, ltb, if◌then◌else◌}
use app_mesh.Dict.{get}
use app_mesh.Text.{std_string_trim, text_length}
use app_mesh.Security.Model.{
  Outcome, returns, throws, ◌>>=◌, ◌>>◌, or_throw, throw_if, Security, change_user_passwd,
  lock_user, add_user, del_user, add_role, del_role, get_user_permissions, get_all_permissions,
  bad_path, missing_header, not_own_password, short_password, admin_lock,
}
use app_mesh.Security.Access.{
  Outside, HttpRequest, get_jwt_user_name, permission_check, verify_token,
}

abbrev pub jwt_admin_name : String
jwt_admin_name = "admin"

module _ (env : Outside) (jwt_enabled : Bool) where
  -- RestHandler::regexSearch: the part of the path that the handler's expression picks.
  unfoldable pub regex_search : String → String → Outcome String
  regex_search value expr = do
    what ← or_throw (env.search expr value) bad_path
    let result = std_string_trim what
    if str_eq result "" then throws bad_path else returns result

  -- What the handlers start with: the check of the permission, the name in the path, and the name
  -- in the token.
  unfoldable pub checked : String → String → HttpRequest → Security → Outcome (String × String)
  unfolding regex_search
  checked permission expr message s = do
    permission_check env jwt_enabled message permission s
    path_name ← regex_search message.path expr
    token_name ← get_jwt_user_name env message
    returns (path_name, token_name)

  unfoldable pub api_user_change_pwd : HttpRequest → Security → Outcome Security
  unfolding checked
  api_user_change_pwd message s = do
    names ← checked "passwd-change" "/appmesh/user/([^/\\*]+)/passwd" message s
    header ← or_throw (get "New-Password" message.headers) missing_header
    let new_passwd = std_string_trim (env.decode64 header)
    throw_if (not (str_eq names.0 names.1)) not_own_password
    throw_if (ltb (text_length new_passwd) 3) short_password
    change_user_passwd env.hash names.1 new_passwd s

  unfoldable pub api_user_lock : HttpRequest → Security → Outcome Security
  unfolding checked
  api_user_lock message s = do
    names ← checked "user-lock" "/appmesh/user/([^/\\*]+)/lock" message s
    throw_if (str_eq names.0 jwt_admin_name) admin_lock
    lock_user true names.0 s

  unfoldable pub api_user_unlock : HttpRequest → Security → Outcome Security
  unfolding checked
  api_user_unlock message s = do
    names ← checked "user-lock" "/appmesh/user/([^/\\*]+)/unlock" message s
    lock_user false names.0 s

  unfoldable pub api_user_add : HttpRequest → Security → Outcome Security
  unfolding checked
  api_user_add message s = do
    names ← checked "user-add" "/appmesh/user/([^/\\*]+)" message s
    user_json ← message.user_json
    added ← add_user env.hash names.0 user_json s
    returns added.0

  unfoldable pub api_user_del : HttpRequest → Security → Outcome Security
  unfolding checked
  api_user_del message s = do
    names ← checked "user-delete" "/appmesh/user/([^/\\*]+)" message s
    del_user names.0 s

  unfoldable pub api_role_update : HttpRequest → Security → Outcome Security
  unfolding checked
  api_role_update message s = do
    names ← checked "role-set" "/appmesh/role/([^/\\*]+)" message s
    permissions ← message.role_json
    returns (add_role permissions names.0 s)

  unfoldable pub api_role_delete : HttpRequest → Security → Outcome Security
  unfolding checked
  api_role_delete message s = do
    names ← checked "role-delete" "/appmesh/role/([^/\\*]+)" message s
    del_role names.0 s

  -- RestHandler::apiUserPermissionsView
  unfoldable pub api_user_permissions_view : HttpRequest → Security → Outcome (List String)
  unfolding get_all_permissions
  api_user_permissions_view message s =
      if jwt_enabled
      then (do result ← verify_token env message s; get_user_permissions result.0 s)
      else returns (get_all_permissions s)

-- The requests that change the security data.
pub data Call : Type 0 where
  change_pwd lock unlock user_add user_del role_update role_delete : Call

-- The permission that a handler asks for.
unfoldable pub permission_of : Call → String
permission_of change_pwd = "passwd-change"
permission_of lock = "user-lock"
permission_of unlock = "user-lock"
permission_of user_add = "user-add"
permission_of user_del = "user-delete"
permission_of role_update = "role-set"
permission_of role_delete = "role-delete"

-- The permission that the constants name for a request.
unfoldable pub documented_permission : Call → String
documented_permission change_pwd = "passwd-change"
documented_permission lock = "user-lock"
documented_permission unlock = "user-unlock"
documented_permission user_add = "user-add"
documented_permission user_del = "user-delete"
documented_permission role_update = "role-set"
documented_permission role_delete = "role-delete"

-- The expression by which a handler finds the name in its path.
unfoldable pub expr_of : Call → String
expr_of change_pwd = "/appmesh/user/([^/\\*]+)/passwd"
expr_of lock = "/appmesh/user/([^/\\*]+)/lock"
expr_of unlock = "/appmesh/user/([^/\\*]+)/unlock"
expr_of user_add = "/appmesh/user/([^/\\*]+)"
expr_of user_del = "/appmesh/user/([^/\\*]+)"
expr_of role_update = "/appmesh/role/([^/\\*]+)"
expr_of role_delete = "/appmesh/role/([^/\\*]+)"

-- The handler that RestHandler binds to a request.
unfoldable pub handle : Outside → Bool → Call → HttpRequest → Security → Outcome Security
unfolding permission_of
handle env jwt_enabled change_pwd = api_user_change_pwd env jwt_enabled
handle env jwt_enabled lock = api_user_lock env jwt_enabled
handle env jwt_enabled unlock = api_user_unlock env jwt_enabled
handle env jwt_enabled user_add = api_user_add env jwt_enabled
handle env jwt_enabled user_del = api_user_del env jwt_enabled
handle env jwt_enabled role_update = api_role_update env jwt_enabled
handle env jwt_enabled role_delete = api_role_delete env jwt_enabled
