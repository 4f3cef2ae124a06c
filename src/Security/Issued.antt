-- ===== src/Security/Issued.antt =====
-- From the login to the requests with the token that it gave: apiUserLogin of
-- src/daemon/rest/RestHandler.cpp and permissionCheck of src/daemon/rest/RestBase.cpp.
use Prim.Native.String.{String as Text}
use app_mesh.Prelude.{
  zero, Bool, true, false, not, ◌&&◌, Option, some, String, str_eq, eq_iff, ◌≡◌, ◌↔◌, refl, ap, sym,
  ◌∙◌, arith, inl, inr, Bool-cases, Option-cases,
}
use app_mesh.Prelude.Int.{ℤ}
use app_mesh.Dict.{get}
use app_mesh.Text.{
  std_string_trim, start_with, text_length, space_count, kept_length, all_spaces, is_space, take,
  drop,
}
use app_mesh.Text.Trim.{IsTrimmed, trail, std_string_trim_lem}
use app_mesh.Text.Search.{◌<>◌}
use app_mesh.Security.Model.{
  returns, Outcome-cases, Security, User, verify_user_key, stored_key, get_user, any_role_has,
}
use app_mesh.Security.Access.{Outside, HttpRequest, get_jwt_token, permission_check}
use app_mesh.Security.Guards.{permission_check_iff}
use app_mesh.Security.Session.{
  logged_in, create_jwt_token, expire_seconds, check_password, login_reply, login, api_user_login,
}

trail_unchanged : (s : String) → trail s zero ≡ s
trail_unchanged Text.[] = refl
trail_unchanged (Text.◌∷◌ c s) = ap (Text.◌∷◌ c) (trail_unchanged s)

-- Trimming leaves a trimmed text.
std_string_trim-IsTrimmed : (s : String) → IsTrimmed s → std_string_trim s ≡ s
std_string_trim-IsTrimmed s t =
    sym (ap std_string_trim (trail_unchanged s))
    ∙ std_string_trim_lem s 0 0 t
    ∙ ground (arith, trail_unchanged s)

not_all_spaces : (s : String) → IsTrimmed s → all_spaces s ≡ false
unfolding kept_length text_length
not_all_spaces Text.[] t = absurd (omega (arith, t.0))
not_all_spaces (Text.◌∷◌ c s) t = ground (arith, t.2)

Bearer-IsTrimmed : (token : String) → IsTrimmed token → IsTrimmed ("Bearer " <> token)
unfolding ◌<>◌ text_length space_count kept_length all_spaces is_space
Bearer-IsTrimmed token t = (ground arith, refl, ground (arith, not_all_spaces token t, t.2))

drop-Bearer : (token : String) → drop 7 ("Bearer " <> token) ≡ token
unfolding ◌<>◌ drop
drop-Bearer token = refl

start_with-Bearer : (token : String) → start_with ("Bearer " <> token) "Bearer " ≡ true
unfolding ◌<>◌ start_with take text_length
start_with-Bearer token = ground arith

get_jwt_token-Bearer :
    (message : HttpRequest) (token : String)
    → IsTrimmed token
    → get "Authorization" message.headers ≡ some ("Bearer " <> token)
    → get_jwt_token message ≡ token
unfolding get_jwt_token
get_jwt_token-Bearer message token t h =
    rw
      (
        get_jwt_token,
        h,
        std_string_trim-IsTrimmed ("Bearer " <> token) (Bearer-IsTrimmed token t),
        start_with-Bearer token,
      )
      (drop-Bearer token)

module _ (env : Outside) (create : String → String → ℤ → String) (stoi : String → Option ℤ) where
  -- If the token was made of a name and a group, it is a trimmed text that decodes to them.
  abbrev pub IsIssued : String → ℤ → Type 0
  IsIssued token seconds =
      (name group : String)
      → token ≡ create name group seconds
      → IsTrimmed token
        × (env.decode token ≡ some (record { name = some name; group = some group }))

  -- A login that gives a token: the password was checked for the name, and the token is made for it.
  login_reply-token :
      (message : HttpRequest) (uname : String) (checked : Bool × String) {token : String}
      {seconds : ℤ}
      → login_reply env create stoi true message uname checked ≡ returns (logged_in token seconds)
      → (checked.0 ≡ true) × (token ≡ create uname checked.1 seconds)
  unfolding login_reply create_jwt_token
  login_reply-token message uname (false, group) h = absurd (ground arith)
  login_reply-token message uname (true, group) {token} {seconds} h =
      elim (Outcome-cases (expire_seconds env create stoi true message)) [
        | inr (why, e) ↦ absurd (ground arith)
        | inl (n, e) ↦ elim (Bool-cases (str_eq uname "")) [
          | inl x ↦ absurd (ground arith)
          | inr x ↦ ground arith
        ]
      ]

  login-token :
      (message : HttpRequest) (uname passwd : String) (s : Security) {token : String} {seconds : ℤ}
      → login env create stoi true message uname passwd s ≡ returns (logged_in token seconds)
      → (user : User) × (get uname s.users ≡ some user)
        × (user.locked ≡ false)
        × (user.key ≡ stored_key env.hash s passwd)
        × (token ≡ create uname user.group seconds)
  unfolding login check_password verify_user_key get_user
  login-token message uname passwd s {token} {seconds} h = elim (Option-cases (get uname s.users)) [
    | inl n ↦ absurd (ground arith)
    | inr (user, n) ↦
        let checked : Bool × String =
          (str_eq user.key (stored_key env.hash s passwd) && not user.locked, user.group) in
        let reply : login_reply env create stoi true message uname checked
            ≡ returns (logged_in token seconds) =
          ground arith in
        let (right, made) = login_reply-token message uname checked reply in
        (
          user,
          n,
          ground arith,
          ground (arith, eq_iff user.key (stored_key env.hash s passwd)),
          made,
        )
  ]

  -- A request with a valid token for these claims.
  permits :
      (request : HttpRequest) (s : Security) (permission uname : String) (user : User)
      {token : String} {group : String}
      → get_jwt_token request ≡ token
      → env.decode token ≡ some (record { name = some uname; group = some group })
      → env.verify token ≡ true
      → get uname s.users ≡ some user
      → user.locked ≡ false
      → (permission_check env true request permission s ≡ returns tt)
        ↔ (any_role_has user.roles permission ≡ true)
  permits request s permission uname user {token} {group} carries decodes valid exists unlocked = (
    λ passed.
        let a = (permission_check_iff env request permission s).0 passed in
        ground (arith, a.decodes, a.names, a.exists, a.permits),
    λ has_role. (permission_check_iff env request permission s).1 (record {
      claims = record { name = some uname; group = some group };
      user_name = uname;
      group = group;
      user = user;
      decodes = ap env.decode carries ∙ decodes;
      verifies = ap env.verify carries ∙ valid;
      names = refl;
      groups = refl;
      exists = exists;
      unlocked = unlocked;
      permits = has_role;
    }),
  )

  -- With tokens in use: if a login gave a token, which is a trimmed text that decodes to the claims
  -- that it was made of, and a later request carries it in its header while it is still valid,
  -- then the login was of a user who exists, is not locked and gave the right password, and the
  -- request passes the check of a permission exactly if a role of that user has the permission.
  pub login-permission_check :
      (message request : HttpRequest) (s : Security) (permission token : String) (seconds : ℤ)
      → IsIssued token seconds
      → api_user_login env create stoi true message s ≡ returns (logged_in token seconds)
      → get "Authorization" request.headers ≡ some ("Bearer " <> token)
      → env.verify token ≡ true
      → (username : String) × (password : String) × (user : User) × (get "Username" message.headers
          ≡ some username)
        × (get "Password" message.headers ≡ some password)
        × (get (env.decode64 username) s.users ≡ some user)
        × (user.locked ≡ false)
        × (user.key ≡ stored_key env.hash s (env.decode64 password))
        × ((permission_check env true request permission s ≡ returns tt)
            ↔ (any_role_has user.roles permission ≡ true))
  unfolding api_user_login
  login-permission_check message request s permission token seconds issued h header valid =
      elim (Option-cases (get "Username" message.headers)) [
        | inl n ↦ absurd (ground arith)
        | inr (username, n) ↦ elim (Option-cases (get "Password" message.headers)) [
          | inl m ↦ absurd (ground arith)
          | inr (password, m) ↦
              let (user, u, unlocked, key, made) =
                login-token message (env.decode64 username) (env.decode64 password) s
                  {token = token} {seconds = seconds} (ground arith) in
              (
                username,
                password,
                user,
                n,
                m,
                u,
                unlocked,
                key,
                permits request s permission (env.decode64 username) user
                    (get_jwt_token-Bearer request token
                      (issued (env.decode64 username) user.group made).0 header)
                    (issued (env.decode64 username) user.group made).1 valid u unlocked,
              )
        ]
      ]
