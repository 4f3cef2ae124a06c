-- ===== src/Security/Access.antt =====
-- Tokens and permissions of a request: src/daemon/rest/RestBase.cpp. What the daemon takes from other
-- libraries is a record of functions: the decoding of base64 by Boost, of a JSON web token and its
-- verification by jwt-cpp (for the algorithm, the salt, the issuer and the time), and the search of
-- a path for an expression by Boost, which gives the first group that matched.
use app_mesh.Prelude.{not, Bool, true, false, Option, none, some, String, List, if◌then◌else◌}
use app_mesh.Dict.{Dict, get, member}
use app_mesh.Text.{std_string_trim, start_with, drop}
use app_mesh.Security.Model.{
  Outcome, returns, throws, ◌>>=◌, ◌>>◌, or_throw, throw_if, Security, UserJson, get_user,
  get_user_permissions, no_user_in_token, bad_token, user_locked, no_permission,
}

-- The payload claims of a token that the daemon reads, where they are texts.
pub record Claims : Type 0 where
  pub name : Option String
  pub group : Option String

pub record Outside : Type 0 where
  pub hash : String → String
  pub decode64 : String → String
  pub decode : String → Option Claims
  pub verify : String → Bool
  pub search : String → String → Option String

-- A request with its decoded path, its headers, and what `extractJson` gives when the body is read
-- as a user or as the permissions of a role.
pub record HttpRequest : Type 0 where
  pub path : String
  pub headers : Dict String
  pub user_json : Outcome (Option UserJson)
  pub role_json : Outcome (List String)

unfoldable pub get_jwt_token : HttpRequest → String
get_jwt_token message = elim (get "Authorization" message.headers) [
  | none ↦ ""
  | some header ↦
      let token = std_string_trim header in
      if start_with token "Bearer " then drop 7 token else token
]

module _ (env : Outside) where
  -- RestBase::verifyToken, with the name and the group that it returns.
  unfoldable pub verify_token : HttpRequest → Security → Outcome (String × String)
  unfolding get_jwt_token get_user
  verify_token message s = do
    claims ← or_throw (env.decode (get_jwt_token message)) bad_token
    user_name ← or_throw claims.name no_user_in_token
    user ← get_user user_name s.users
    throw_if user.locked user_locked
    throw_if (not (env.verify (get_jwt_token message))) bad_token
    group ← or_throw claims.group bad_token
    returns (user_name, group)

  -- RestBase::getJwtUserName, which does not verify the token.
  unfoldable pub get_jwt_user_name : HttpRequest → Outcome String
  unfolding get_jwt_token
  get_jwt_user_name message = do
    claims ← or_throw (env.decode (get_jwt_token message)) bad_token
    or_throw claims.name no_user_in_token

  -- RestBase::permissionCheck, which throws where it does not return true.
  unfoldable pub permission_check : Bool → HttpRequest → String → Security → Outcome (Unit {0})
  unfolding verify_token get_user_permissions
  permission_check false message permission s = returns tt
  permission_check true message permission s = do
    result ← verify_token message s
    permissions ← get_user_permissions result.0 s
    if member permission permissions then returns tt else throws no_permission
