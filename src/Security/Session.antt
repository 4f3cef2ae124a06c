-- ===== src/Security/Session.antt =====
-- The login and the check of a token: apiUserLogin and apiUserAuth of src/daemon/rest/RestHandler.cpp, and
-- createJwtToken of src/daemon/rest/RestBase.cpp. `create name group seconds` is the token that jwt-cpp
-- signs for these claims, with the salt, the issuer and the time of the call, and `stoi` is
-- `std::stoi`, where `none` is its exception.
use app_mesh.Prelude.{Bool, true, false, not, Option, none, some, String, str_eq, if◌then◌else◌}
use app_mesh.Prelude.Int.{ℤ, pos}
use app_mesh.Dict.{get}
use app_mesh.Security.Model.{
  Outcome, returns, ◌>>=◌, ◌>>◌, or_throw, throw_if, Security, verify_user_key, no_user_name,
  bad_number,
}
use app_mesh.Security.Access.{Outside, HttpRequest, permission_check, get_jwt_user_name}

-- The replies, without the times of the profile.
pub data LoginReply : Type 0 where
  logged_in : String → ℤ → LoginReply
  wrong_password : LoginReply
  name_missing : LoginReply

pub data AuthReply : Type 0 where
  auth_disabled : AuthReply
  authenticated : String → String → AuthReply

-- DEFAULT_TOKEN_EXPIRE_SECONDS
abbrev pub default_token_expire_seconds : ℤ
default_token_expire_seconds = pos 604800

module _ (env : Outside) (create : String → String → ℤ → String) (stoi : String → Option ℤ)
    (jwt_enabled : Bool) where
  -- RestBase::createJwtToken
  unfoldable pub create_jwt_token : String → String → ℤ → Outcome String
  create_jwt_token uname user_group timeout_seconds = do
    throw_if (str_eq uname "") no_user_name
    returns (create uname user_group timeout_seconds)

  -- How long the token is to be valid.
  unfoldable pub expire_seconds : HttpRequest → Outcome ℤ
  expire_seconds message = elim (get "Expire-Seconds" message.headers) [
    | none ↦ returns default_token_expire_seconds
    | some timeout ↦ or_throw (stoi timeout) bad_number
  ]

  -- Whether the password is right, and the group of the user; nothing is looked up without tokens.
  unfoldable pub check_password : String → String → Security → Outcome (Bool × String)
  unfolding verify_user_key
  check_password uname passwd s =
      if jwt_enabled then verify_user_key env.hash uname passwd s else returns (true, "")

  -- The reply, once the password was checked.
  unfoldable pub login_reply : HttpRequest → String → Bool × String → Outcome LoginReply
  unfolding expire_seconds create_jwt_token
  login_reply message uname (false, user_group) = returns wrong_password
  login_reply message uname (true, user_group) = do
    timeout_seconds ← expire_seconds message
    token ← create_jwt_token uname user_group timeout_seconds
    returns (logged_in token timeout_seconds)

  unfoldable pub login : HttpRequest → String → String → Security → Outcome LoginReply
  unfolding check_password login_reply
  login message uname passwd s = do
    checked ← check_password uname passwd s
    login_reply message uname checked

  -- RestHandler::apiUserLogin
  unfoldable pub api_user_login : HttpRequest → Security → Outcome LoginReply
  unfolding login
  api_user_login message s = elim (get "Username" message.headers) [
    | none ↦ returns name_missing
    | some username ↦ elim (get "Password" message.headers) [
      | none ↦ returns name_missing
      | some password ↦ login message (env.decode64 username) (env.decode64 password) s
    ]
  ]

  -- The permission that the request asks about.
  unfoldable pub auth_permission : HttpRequest → String
  auth_permission message = elim (get "Auth-Permission" message.headers) [
    | none ↦ ""
    | some permission ↦ permission
  ]

  -- RestHandler::apiUserAuth; permissionCheck throws where it does not return true.
  unfoldable pub api_user_auth : HttpRequest → Security → Outcome AuthReply
  unfolding auth_permission permission_check get_jwt_user_name
  api_user_auth message s =
      let permission = auth_permission message in
      if not jwt_enabled then returns auth_disabled else (do
        permission_check env jwt_enabled message permission s
        user ← get_jwt_user_name env message
        returns (authenticated user permission))
